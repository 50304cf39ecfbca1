-- ===== src/Paged/Buffer/Links/Victim.antt =====
-- Which slot the loop of `InternalAlloc` chooses from the used list.
use redbase.Base.{
  ℕ, zero, suc, ◌+◌, ◌<◌, ◌≤◌, ◌≡◌, refl, Option, none, some, List, [], ◌∷◌, ◌++◌, length,
  length-append, arith, if◌then◌else◌, ◌==◌, ◌⊎◌, inl, inr, ap, Bool-cases, subst, true, false,
}
use redbase.Paged.Buffer.Links.{Run, Run-parts}
use redbase.Paged.Buffer.Links.Lists.{Uses}
use redbase.Paged.Buffer.{Buffer, Desc, find_victim}
use redbase.Paged.Code.{no_buf}
use redbase.Paged.Outcome.{Outcome, ok, err}

-- The last slot of a sequence that no one has pinned.
abbrev pub last_unpinned : (ℕ → Desc) → List ℕ → Option ℕ
last_unpinned t [] = none
last_unpinned t (x ∷ xs) = elim (last_unpinned t xs) [
  | some s ↦ some s
  | none ↦ if (t x).pins == 0 then some x else none
]

snoc-cases : (xs : List ℕ) → (xs ≡ []) ⊎ ((ys : List ℕ) × (z : ℕ) × (xs ≡ ys ++ z ∷ []))
snoc-cases [] = inl refl
snoc-cases (x ∷ xs) = elim (snoc-cases xs) [
  | inl e ↦ inr ([], x, ap (◌∷◌ x) e)
  | inr (ys, z, e) ↦ inr (x ∷ ys, z, ap (◌∷◌ x) e)
]

unpinned_here :
    (t : ℕ → Desc) (ys : List ℕ) (z : ℕ)
    → ((t z).pins == 0) ≡ true
    → last_unpinned t (ys ++ z ∷ []) ≡ some z
unpinned_here t [] z e = rw (e) refl
unpinned_here t (y ∷ ys) z e = rw (unpinned_here t ys z e) refl

unpinned_before :
    (t : ℕ → Desc) (ys : List ℕ) (z : ℕ)
    → ((t z).pins == 0) ≡ false
    → last_unpinned t (ys ++ z ∷ []) ≡ last_unpinned t ys
unpinned_before t [] z e = rw (e) refl
unpinned_before t (y ∷ ys) z e = rw (unpinned_before t ys z e) refl

module _ {F : Type 0} where
  abbrev pub chosen : Buffer F → Option ℕ → Outcome (Buffer F) ℕ
  chosen b o = elim o [ some s ↦ ok b s | none ↦ err b no_buf ]

  find_victim-Run :
      (fuel : ℕ) (b : Buffer F) (h l a : Option ℕ) (xs : List ℕ)
      → Run b.table none h xs l a
      → length xs < fuel
      → find_victim fuel l b ≡ chosen b (last_unpinned b.table xs)
  unfolding find_victim
  find_victim-Run zero b h l a xs r f = absurd (omega arith)
  find_victim-Run (suc fuel) b h l a xs r f = elim (snoc-cases xs) [
    | inl e ↦ rw (e, (subst (λ ys. Run b.table none h ys l a) e r).1) refl
    | inr (ys, z, e) ↦
        let (l', m, front, (_, before, (_, end))) =
          Run-parts b.table none h l a ys (z ∷ []) (subst (λ zs. Run b.table none h zs l a) e r) in
        let short : length ys < fuel = omega (arith, length-append ys (z ∷ []), ap length e) in
        rw (end, e)
          (elim (Bool-cases ((b.table z).pins == 0)) [
            | inl q ↦ rw (q, unpinned_here b.table ys z q) refl
            | inr q ↦
                rw (q, unpinned_before b.table ys z q, before)
                  (find_victim-Run fuel b h l' m ys front short)
          ])
  ]

  -- With at most as many slots on the used list as the buffer has, the search of `InternalAlloc`
  -- ends: it finds the least recently used slot that is not pinned, and fails with `PF_NOBUF`
  -- exactly when all are pinned.
  pub find_victim_lem :
      (b : Buffer F) (xs : List ℕ)
      → Uses b xs
      → length xs ≤ b.num_pages
      → find_victim (b.num_pages + 1) b.last b ≡ chosen b (last_unpinned b.table xs)
  find_victim_lem b xs (r, _) h =
      find_victim-Run (b.num_pages + 1) b b.first b.last none xs r (omega arith)
