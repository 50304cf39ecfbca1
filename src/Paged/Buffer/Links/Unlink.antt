-- ===== src/Paged/Buffer/Links/Unlink.antt =====
-- `Unlink` on the used list.
use redbase.Base.{
  ℕ, ◌≡◌, ◌≢◌, refl, Option, none, some, List, [], ◌∷◌, ◌++◌, arith, sym, ◌∙◌, true, false, subst,
  subst₂, if◌then◌else◌, update_ne, some,
}
use redbase.Paged.Buffer.Links.Lists.{
  IsSplit, IsDistinct-IsSplit, IsSplit-IsDistinct, Uses, append-NotIn, Agree-own, IsDisjoint-head,
  IsDisjoint-last,
}
use redbase.Paged.Buffer.Links.{
  NotIn, IsDistinct, IsDisjoint, Run, Agree, Agree-update, Agree-Run, Run-last, Run-append,
  Run-parts, Run-set_next, Run-set_prev, last_of, NotIn-last,
}
use redbase.Paged.Buffer.{Buffer, Desc, set_next, set_prev, is_slot, unlink}

abbrev bypass_next : Option ℕ → Option ℕ → (ℕ → Desc) → ℕ → Desc
bypass_next n p t = elim n [ none ↦ t | some x ↦ set_prev x p t ]

abbrev bypass_prev : Option ℕ → Option ℕ → (ℕ → Desc) → ℕ → Desc
bypass_prev p n t = elim p [ none ↦ t | some x ↦ set_next x n t ]

abbrev without : ℕ → Option ℕ → Option ℕ → Option ℕ
without s end other = if is_slot s end then other else end

is_slot_self : (s : ℕ) (o : Option ℕ) → o ≡ some s → is_slot s o ≡ true
is_slot_self s none e = absurd (cc)
is_slot_self s (some i) e = ground arith

is_slot_other : (s x : ℕ) (o : Option ℕ) → o ≡ some x → s ≢ x → is_slot s o ≡ false
is_slot_other s x none e h = refl
is_slot_other s x (some i) e h = ground arith

Agree-refl : (t : ℕ → Desc) (xs : List ℕ) → Agree t t xs
Agree-refl t [] = tt
Agree-refl t (x ∷ xs) = (refl, refl, Agree-refl t xs)

-- The part behind the slot.
bypass_next-Run :
    (t : ℕ → Desc) (s : ℕ) (k n last : Option ℕ) (ys : List ℕ)
    → Run t (some s) n ys last none
    → NotIn s ys
    → IsDistinct ys
    → Run (bypass_next n k t) k n ys (without s last k) none
bypass_next-Run t s k n last [] (e, q) h d = (e, rw (is_slot_self s last q))
bypass_next-Run t s k none last (y ∷ ys) (e, _, _) h d = absurd (cc)
bypass_next-Run t s k (some z) last (y ∷ ys) r h (fresh, d) =
    let same : z ≡ y = ground (arith, r.0) in
    let end = Run-last t (some s) (some z) last none y ys r in
    rw (is_slot_other s (last_of y ys) last end (NotIn-last s y ys h)) (
      subst (λ w. Run (set_prev w k t) k (some z) (y ∷ ys) last none) (sym same)
        (Run-set_prev t (some s) (some z) last none k y ys fresh r))

-- The part in front of the slot.
bypass_prev-Run :
    (t : ℕ → Desc) (s : ℕ) (first k n : Option ℕ) (xs : List ℕ)
    → Run t none first xs k (some s)
    → NotIn s xs
    → IsDistinct xs
    → Run (bypass_prev k n t) none (without s first n) xs k n
bypass_prev-Run t s first k n [] (e, q) h d = (rw (is_slot_self s first e), q)
bypass_prev-Run t s first none n (x ∷ xs) r h d =
    absurd (cc (Run-last t none first none (some s) x xs r))
bypass_prev-Run t s first (some z) n (x ∷ xs) r (ne, h) d =
    let same : z ≡ last_of x xs = ground (arith, Run-last t none first (some z) (some s) x xs r) in
    rw (is_slot_other s x first r.0 ne) (
      subst (λ w. Run (set_next w n t) none first (x ∷ xs) (some z) n) (sym same)
        (Run-set_next t none first (some z) (some s) n x xs d r))

-- Neither write touches the links of the other part.
bypass_next-Agree :
    (t : ℕ → Desc) (b k n l a : Option ℕ) (xs ys : List ℕ)
    → Run t b n ys l a
    → a ≡ none
    → IsDisjoint xs ys
    → Agree t (bypass_next n k t) xs
bypass_next-Agree t b k none l a xs ys r e d = Agree-refl t xs
bypass_next-Agree t b k (some z) l a xs [] (h, q) e d = absurd (cc)
bypass_next-Agree t b k (some z) l a xs (y ∷ ys) (h, p, r) e d =
    let same : z ≡ y = ground arith in
    Agree-update t z _ xs (subst (λ w. NotIn w xs) (sym same) (IsDisjoint-head y xs ys d))

bypass_prev-Agree :
    (t : ℕ → Desc) (h k n a : Option ℕ) (xs ys : List ℕ)
    → Run t none h xs k a
    → IsDisjoint xs ys
    → Agree t (bypass_prev k n t) ys
bypass_prev-Agree t h none n a xs ys r d = Agree-refl t ys
bypass_prev-Agree t h (some z) n a [] ys (e, q) d = absurd (cc)
bypass_prev-Agree t h (some z) n a (x ∷ xs) ys r d =
    let same : z ≡ last_of x xs = ground (arith, Run-last t none h (some z) a x xs r) in
    Agree-update t z _ ys (subst (λ w. NotIn w ys) (sym same) (IsDisjoint-last x xs ys d))

bypass_next-own :
    (t : ℕ → Desc) (s : ℕ) (b k n l : Option ℕ) (ys : List ℕ)
    → Run t b n ys l none
    → NotIn s ys
    → bypass_next n k t s ≡ t s
bypass_next-own t s b k none l ys r h = refl
bypass_next-own t s b k (some z) l [] (e, q) h = absurd (cc)
bypass_next-own t s b k (some z) l (y ∷ ys) (e, p, r) (ne, h) =
    let same : z ≡ y = ground arith in update_ne t z s _ (λ q. ne (q ∙ same))

abbrev unlinked : ℕ → (ℕ → Desc) → ℕ → Desc
unlinked s t =
    let u = bypass_next (t s).next (t s).prev t in
    set_prev s none (set_next s none (bypass_prev (u s).prev (u s).next u))

unlink-Run :
    (t : ℕ → Desc) (s : ℕ) (first last : Option ℕ) (xs ys : List ℕ)
    → IsSplit xs s ys
    → Run t none first (xs ++ s ∷ ys) last none
    → Run
        (unlinked s t)
        none
        (without s first (t s).next)
        (xs ++ ys)
        (without s last (t s).prev)
        none
unlink-Run t s first last xs ys i r =
    let (l, m, a, (e, p, behind)) = Run-parts t none first last none xs (s ∷ ys) r in
    let k = (t s).prev in
    let n = (t s).next in
    let front = subst₂ (λ x y. Run t none first xs x y) (sym p) e a in
    let u = bypass_next n k t in
    let own = bypass_next-own t s (some s) k n last ys behind i.not_right in
    let behind₁ = bypass_next-Run t s k n last ys behind i.not_right i.right in
    let front₁ =
      Agree-Run t u none first k (some s) xs
        (bypass_next-Agree t (some s) k n last none xs ys behind refl i.apart) front in
    let w = bypass_prev k n u in
    let front₂ = bypass_prev-Run u s first k n xs front₁ i.not_left i.left in
    let behind₂ =
      Agree-Run u w k n (without s last k) none ys
        (bypass_prev-Agree u first k n (some s) xs ys front₁ i.apart) behind₁ in
    let whole =
      Run-append w none (without s first n) k n (without s last k) none xs ys front₂ behind₂ in
    let fresh = append-NotIn s xs ys i.not_left i.not_right in
    let final =
      Agree-own w s none none none (without s first n) (without s last k) none (xs ++ ys) fresh
        whole in
    subst
      (λ (c : Desc).
        Run (set_prev s none (set_next s none (bypass_prev c.prev c.next u))) none
          (without s first n) (xs ++ ys) (without s last k) none)
      (sym own) final

module _ {F : Type 0} where
  -- `Unlink` of a slot on the used list takes it out and keeps the order of the others.
  pub unlink-Uses :
      (b : Buffer F) (xs : List ℕ) (s : ℕ) (ys : List ℕ)
      → Uses b (xs ++ s ∷ ys)
      → Uses (unlink s b) (xs ++ ys)
  unfolding unlink
  unlink-Uses b xs s ys (r, d) =
      let split = IsDistinct-IsSplit xs s ys d in
      (unlink-Run b.table s b.first b.last xs ys split r, IsSplit-IsDistinct xs s ys split)
