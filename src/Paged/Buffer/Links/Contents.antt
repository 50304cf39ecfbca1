-- ===== src/Paged/Buffer/Links/Contents.antt =====
-- What the work on the lists leaves alone: everything in a slot's description but its links.
use redbase.Base.{
  ℕ, Bool, ◌≡◌, refl, Option, none, some, ◌==◌, ℤ, Bool-cases, inl, inr, ap, ◌∙◌, arith,
}
use redbase.Bytes.{Bytes}
use redbase.Paged.Buffer.{Buffer, Desc, set_next, set_prev, link_head, unlink}

abbrev pub Contents : Type 0
Contents = Bytes × Bool × ℕ × ℤ × ℤ

abbrev pub contents : Desc → Contents
contents d = (d.bytes, d.dirty, d.pins, d.page, d.fd)

set_next-contents :
    (s : ℕ) (v : Option ℕ) (t : ℕ → Desc) (i : ℕ) → contents (set_next s v t i) ≡ contents (t i)
set_next-contents s v t i = elim (Bool-cases (i == s)) [
  | inl e ↦ rw (e) (ap (λ k. contents (t k)) (ground arith))
  | inr e ↦ rw (e) refl
]

set_prev-contents :
    (s : ℕ) (v : Option ℕ) (t : ℕ → Desc) (i : ℕ) → contents (set_prev s v t i) ≡ contents (t i)
set_prev-contents s v t i = elim (Bool-cases (i == s)) [
  | inl e ↦ rw (e) (ap (λ k. contents (t k)) (ground arith))
  | inr e ↦ rw (e) refl
]

prev_at-contents :
    (o v : Option ℕ) (t : ℕ → Desc) (i : ℕ)
    → contents (elim o as (λ _. ℕ → Desc) [ none ↦ t | some f ↦ set_prev f v t ] i) ≡ contents (t i)
prev_at-contents none v t i = refl
prev_at-contents (some f) v t i = set_prev-contents f v t i

next_at-contents :
    (o v : Option ℕ) (t : ℕ → Desc) (i : ℕ)
    → contents (elim o as (λ _. ℕ → Desc) [ none ↦ t | some f ↦ set_next f v t ] i) ≡ contents (t i)
next_at-contents none v t i = refl
next_at-contents (some f) v t i = set_next-contents f v t i

module _ {F : Type 0} where
  pub link_head-contents :
      (s : ℕ) (b : Buffer F) (i : ℕ) → contents ((link_head s b).table i) ≡ contents (b.table i)
  unfolding link_head
  link_head-contents s b i =
      let t = set_prev s none (set_next s b.first b.table) in
      prev_at-contents b.first (some s) t i
      ∙ set_prev-contents s none (set_next s b.first b.table) i
      ∙ set_next-contents s b.first b.table i

  pub unlink-contents :
      (s : ℕ) (b : Buffer F) (i : ℕ) → contents ((unlink s b).table i) ≡ contents (b.table i)
  unfolding unlink
  unlink-contents s b i =
      let d = b.table s in
      let t : ℕ → Desc = elim d.next [ none ↦ b.table | some n ↦ set_prev n d.prev b.table ] in
      let u : ℕ → Desc = elim (t s).prev [ none ↦ t | some p ↦ set_next p (t s).next t ] in
      set_prev-contents s none (set_next s none u) i
      ∙ set_next-contents s none u i
      ∙ next_at-contents (t s).prev (t s).next t i
      ∙ prev_at-contents d.next d.prev b.table i
