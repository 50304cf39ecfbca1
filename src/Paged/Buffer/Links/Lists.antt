-- ===== src/Paged/Buffer/Links/Lists.antt =====
-- `LinkHead` and `Unlink` on the used list, as a sequence from the most to the least recently used
-- slot.
use redbase.Base.{
  ℕ, ◌≡◌, ◌≢◌, refl, Option, none, some, List, [], ◌∷◌, ◌++◌, arith, sym, ap, ◌∙◌, update_ne, subst,
}
use redbase.Paged.Buffer.Links.{
  NotIn, IsDistinct, IsDisjoint, Run, Agree-update, Agree-Run, Run-last, Run-set_prev, last_of,
}
use redbase.Paged.Buffer.{Buffer, Desc, set_next, set_prev, link_head}

-- The parts of a sequence without repetitions, around one of its slots.
pub record IsSplit (xs : List ℕ) (s : ℕ) (ys : List ℕ) : Type 0 where
  pub not_left : NotIn s xs
  pub not_right : NotIn s ys
  pub left : IsDistinct xs
  pub right : IsDistinct ys
  pub apart : IsDisjoint xs ys

NotIn-append : (s : ℕ) (xs ys : List ℕ) → NotIn s (xs ++ ys) → NotIn s xs × NotIn s ys
NotIn-append s [] ys h = (tt, h)
NotIn-append s (x ∷ xs) ys (ne, h) = let (a, b) = NotIn-append s xs ys h in ((ne, a), b)

pub append-NotIn : (s : ℕ) (xs ys : List ℕ) → NotIn s xs → NotIn s ys → NotIn s (xs ++ ys)
append-NotIn s [] ys a b = b
append-NotIn s (x ∷ xs) ys (ne, a) b = (ne, append-NotIn s xs ys a b)

pub IsDistinct-IsSplit :
    (xs : List ℕ) (s : ℕ) (ys : List ℕ) → IsDistinct (xs ++ s ∷ ys) → IsSplit xs s ys
IsDistinct-IsSplit [] s ys (h, d) = record {
  not_left = tt;
  not_right = h;
  left = tt;
  right = d;
  apart = tt;
}
IsDistinct-IsSplit (x ∷ xs) s ys (h, d) =
    let r = IsDistinct-IsSplit xs s ys d in
    let (a, (ne, b)) = NotIn-append x xs (s ∷ ys) h in
    record {
      not_left = ((λ e. ne (sym e)), r.not_left);
      not_right = r.not_right;
      left = (a, r.left);
      right = r.right;
      apart = (b, r.apart);
    }

pub IsSplit-IsDistinct :
    (xs : List ℕ) (s : ℕ) (ys : List ℕ) → IsSplit xs s ys → IsDistinct (xs ++ ys)
IsSplit-IsDistinct [] s ys r = r.right
IsSplit-IsDistinct (x ∷ xs) s ys r = (
  append-NotIn x xs ys r.left.0 r.apart.0,
  IsSplit-IsDistinct xs s ys (record {
    not_left = r.not_left.1;
    not_right = r.not_right;
    left = r.left.1;
    right = r.right;
    apart = r.apart.1;
  }),
)

pub IsDisjoint-head : (x : ℕ) (xs ys : List ℕ) → IsDisjoint xs (x ∷ ys) → NotIn x xs
IsDisjoint-head x [] ys d = tt
IsDisjoint-head x (z ∷ zs) ys ((ne, _), d) = ((λ e. ne (sym e)), IsDisjoint-head x zs ys d)

pub IsDisjoint-last : (x : ℕ) (xs ys : List ℕ) → IsDisjoint (x ∷ xs) ys → NotIn (last_of x xs) ys
IsDisjoint-last x [] ys (h, _) = h
IsDisjoint-last x (z ∷ zs) ys (_, d) = IsDisjoint-last z zs ys d

abbrev head_table : ℕ → Option ℕ → (ℕ → Desc) → ℕ → Desc
head_table s first t =
    let u = set_prev s none (set_next s first t) in
    elim first [ none ↦ u | some f ↦ set_prev f (some s) u ]

abbrev head_last : ℕ → Option ℕ → Option ℕ
head_last s last = elim last [ none ↦ some s | some l ↦ some l ]

own_links :
    (t : ℕ → Desc) (s : ℕ) (p n : Option ℕ)
    → ((set_prev s p (set_next s n t) s).next ≡ n) × ((set_prev s p (set_next s n t) s).prev ≡ p)
own_links t s p n = ground arith

-- The links of a slot do not change by writes to another.
other_links : (t : ℕ → Desc) (s x : ℕ) (p : Option ℕ) → x ≢ s → set_prev s p t x ≡ t x
other_links t s x p h = update_ne t s x _ h

pub Agree-own :
    (t : ℕ → Desc) (s : ℕ) (p n b h l a : Option ℕ) (xs : List ℕ)
    → NotIn s xs
    → Run t b h xs l a
    → Run (set_prev s p (set_next s n t)) b h xs l a
Agree-own t s p n b h l a xs fresh r =
    Agree-Run (set_next s n t) (set_prev s p (set_next s n t)) b h l a xs
      (Agree-update (set_next s n t) s _ xs fresh)
      (Agree-Run t (set_next s n t) b h l a xs (Agree-update t s _ xs fresh) r)

link_head-Run :
    (t : ℕ → Desc) (first last : Option ℕ) (s : ℕ) (xs : List ℕ)
    → Run t none first xs last none
    → IsDistinct xs
    → NotIn s xs
    → Run (head_table s first t) none (some s) (s ∷ xs) (head_last s last) none
link_head-Run t none none s [] r d h = let (a, b) = own_links t s none none in (refl, b, (a, refl))
link_head-Run t none (some l) s [] (_, q) d h = absurd (cc)
link_head-Run t (some f) last s [] (e, _) d h = absurd (cc)
link_head-Run t none last s (x ∷ xs) (e, _, _) d h = absurd (cc)
link_head-Run t (some f) none s (x ∷ xs) r d h =
    absurd (cc (Run-last t none (some f) none none x xs r))
link_head-Run t (some f) (some l) s (x ∷ xs) r (fresh, d) (ne, h) =
    let u = set_prev s none (set_next s (some f) t) in
    let fx : f ≡ x = ground (arith, r.0) in
    let moved =
      Run-set_prev u none (some f) (some l) none (some s) x xs fresh
        (Agree-own t s none (some f) none (some f) (some l) none (x ∷ xs) (ne, h) r) in
    let (a, b) = own_links t s none (some f) in
    let t' = set_prev f (some s) u in
    let same : t' s ≡ u s = other_links u f s (some s) (λ e. ne (e ∙ fx)) in
    (
      refl,
      ap (λ (c : Desc). c.prev) same ∙ b,
      subst (λ n. Run t' (some s) n (x ∷ xs) (some l) none)
          (sym (ap (λ (c : Desc). c.next) same ∙ a))
          (subst (λ y. Run (set_prev y (some s) u) (some s) (some f) (x ∷ xs) (some l) none)
            (sym fx) moved),
    )

module _ {F : Type 0} where
  -- The buffer's used list is the sequence `xs`.
  abbrev pub Uses : Buffer F → List ℕ → Type 0
  Uses b xs = Run b.table none b.first xs b.last none × IsDistinct xs

  -- `LinkHead` of a slot that is not on the used list puts it in front.
  pub link_head-Uses :
      (b : Buffer F) (s : ℕ) (xs : List ℕ) → Uses b xs → NotIn s xs → Uses (link_head s b) (s ∷ xs)
  unfolding link_head
  link_head-Uses b s xs (r, d) h = (link_head-Run b.table b.first b.last s xs r d h, (h, d))
