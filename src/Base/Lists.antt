-- ===== src/Base/Lists.antt =====
-- Lists measured and indexed by native numbers, under the library's names.
use Prim.Native.Nat.{ℕ, zero, suc, ◌+◌, ◌<◌, ◌≤◌}
use mathlib.Core.List.{List, [], ◌∷◌, ◌++◌}
use mathlib.Core.Logic.{◌≢◌}
use mathlib.Core.Path.{◌≡◌, refl, sym, ap, ap₂, ◌∙◌}
use native.Mathlib.Nat.{zero-add, suc-add}
use native.Mathlib.Omega.{arith}
use redbase.Base.Tests.{◌==◌, if◌then◌else◌}

module _ {ℓ} {A : Type ℓ} where
  abbrev pub length : List A → ℕ
  length [] = 0
  length (x ∷ xs) = suc (length xs)

  abbrev pub get_or : List A → ℕ → A → A
  get_or [] i d = d
  get_or (x ∷ xs) zero d = x
  get_or (x ∷ xs) (suc i) d = get_or xs i d

  -- A write out of bounds changes nothing.
  abbrev pub set : List A → ℕ → A → List A
  set [] i v = []
  set (x ∷ xs) zero v = v ∷ xs
  set (x ∷ xs) (suc i) v = x ∷ set xs i v

  abbrev pub replicate : ℕ → A → List A
  replicate zero a = []
  replicate (suc n) a = a ∷ replicate n a

  abbrev pub take : ℕ → List A → List A
  take zero xs = []
  take (suc n) [] = []
  take (suc n) (x ∷ xs) = x ∷ take n xs

  pub length-append : (xs ys : List A) → length (xs ++ ys) ≡ length xs + length ys
  length-append [] ys = omega arith
  length-append (x ∷ xs) ys = omega (arith, length-append xs ys)

  pub length-set : (xs : List A) (i : ℕ) (v : A) → length (set xs i v) ≡ length xs
  length-set [] i v = refl
  length-set (x ∷ xs) zero v = refl
  length-set (x ∷ xs) (suc i) v = ap suc (length-set xs i v)

  pub length-replicate : (n : ℕ) (a : A) → length (replicate n a) ≡ n
  length-replicate zero a = refl
  length-replicate (suc n) a = ap suc (length-replicate n a)

  pub get_or-replicate : (n i : ℕ) (a : A) → get_or (replicate n a) i a ≡ a
  get_or-replicate zero i a = refl
  get_or-replicate (suc n) zero a = refl
  get_or-replicate (suc n) (suc i) a = get_or-replicate n i a

  pub get_or-set_self :
      (xs : List A) (i : ℕ) (v d : A) → i < length xs → get_or (set xs i v) i d ≡ v
  get_or-set_self [] i v d h = elim h [ ]
  get_or-set_self (x ∷ xs) zero v d h = refl
  get_or-set_self (x ∷ xs) (suc i) v d h = get_or-set_self xs i v d (omega arith)

  pub get_or-set_ne :
      (xs : List A) (i j : ℕ) (v d : A) → i ≢ j → get_or (set xs i v) j d ≡ get_or xs j d
  get_or-set_ne [] i j v d h = refl
  get_or-set_ne (x ∷ xs) zero zero v d h = absurd (h refl)
  get_or-set_ne (x ∷ xs) zero (suc j) v d h = refl
  get_or-set_ne (x ∷ xs) (suc i) zero v d h = refl
  get_or-set_ne (x ∷ xs) (suc i) (suc j) v d h = get_or-set_ne xs i j v d (λ e. h (ap suc e))

  -- The memory of an array as a function of the index; a store to one index.
  abbrev pub update : (ℕ → A) → ℕ → A → ℕ → A
  update f i v j = if j == i then v else f j

  -- The first `n` items of an array, in order.
  abbrev pub tabulate : ℕ → (ℕ → A) → List A
  tabulate zero f = []
  tabulate (suc n) f = f 0 ∷ tabulate n (λ i. f (suc i))

  -- The list with one item more, before position `i`.
  abbrev pub insert_at : ℕ → A → List A → List A
  insert_at zero a xs = a ∷ xs
  insert_at (suc i) a [] = a ∷ []
  insert_at (suc i) a (x ∷ xs) = x ∷ insert_at i a xs

  -- The list without the item at position `i`.
  abbrev pub erase_at : ℕ → List A → List A
  erase_at i [] = []
  erase_at zero (x ∷ xs) = xs
  erase_at (suc i) (x ∷ xs) = x ∷ erase_at i xs

  pub tabulate-congr :
      (n : ℕ) (f g : ℕ → A) → ((j : ℕ) → j < n → g j ≡ f j) → tabulate n g ≡ tabulate n f
  tabulate-congr zero f g h = refl
  tabulate-congr (suc n) f g h =
      ap₂ ◌∷◌ (h 0 (omega arith)) (tabulate-congr n _ _ (λ j l. h (suc j) (omega arith)))

  -- An array whose items from `i` on moved up for a new one.
  pub tabulate-insert_at :
      (n i : ℕ) (f g : ℕ → A) (a : A)
      → i ≤ n
      → ((j : ℕ) → j < i → g j ≡ f j)
      → g i ≡ a
      → ((j : ℕ) → i ≤ j → j < n → g (suc j) ≡ f j)
      → tabulate (suc n) g ≡ insert_at i a (tabulate n f)
  tabulate-insert_at n zero f g a le low here high =
      ap₂ ◌∷◌ here (tabulate-congr n f _ (λ j l. high j (omega arith) l))
  tabulate-insert_at zero (suc i) f g a le low here high = absurd (omega arith)
  tabulate-insert_at (suc n) (suc i) f g a le low here high = ap₂ ◌∷◌ (low 0 (omega arith)) (
      tabulate-insert_at n i _ _ a (omega arith) (λ j l. low (suc j) (omega arith)) here
        (λ j l l'. high (suc j) (omega arith) (omega arith)))

  -- An array whose items after `i` moved down over it.
  pub tabulate-erase_at :
      (n i : ℕ) (f g : ℕ → A)
      → i ≤ n
      → ((j : ℕ) → j < i → g j ≡ f j)
      → ((j : ℕ) → i ≤ j → j < n → g j ≡ f (suc j))
      → tabulate n g ≡ erase_at i (tabulate (suc n) f)
  tabulate-erase_at n zero f g le low high = tabulate-congr n _ g (λ j l. high j (omega arith) l)
  tabulate-erase_at zero (suc i) f g le low high = absurd (omega arith)
  tabulate-erase_at (suc n) (suc i) f g le low high = ap₂ ◌∷◌ (low 0 (omega arith)) (
      tabulate-erase_at n i _ _ (omega arith) (λ j l. low (suc j) (omega arith))
        (λ j l l'. high (suc j) (omega arith) (omega arith)))

  pub length-tabulate : (n : ℕ) (f : ℕ → A) → length (tabulate n f) ≡ n
  length-tabulate zero f = refl
  length-tabulate (suc n) f = ap suc (length-tabulate n _)

  pub erase_at-insert_at :
      (i : ℕ) (a : A) (xs : List A) → i ≤ length xs → erase_at i (insert_at i a xs) ≡ xs
  erase_at-insert_at zero a xs h = refl
  erase_at-insert_at (suc i) a [] h = absurd (omega arith)
  erase_at-insert_at (suc i) a (x ∷ xs) h = ap (◌∷◌ x) (erase_at-insert_at i a xs (omega arith))

  pub tabulate-append :
      (a b : ℕ) (f g : ℕ → A)
      → ((j : ℕ) → j < b → g j ≡ f (a + j))
      → tabulate (a + b) f ≡ tabulate a f ++ tabulate b g
  tabulate-append zero b f g h =
      rw (zero-add) (sym (tabulate-congr b f g (λ j l. h j l ∙ ap f (zero-add j))))
  tabulate-append (suc a) b f g h =
      rw (suc-add) (ap (◌∷◌ (f 0)) (tabulate-append a b _ g (λ j l. h j l ∙ ap f (suc-add a j))))

  pub update_self : (f : ℕ → A) (i : ℕ) (v : A) → update f i v i ≡ v
  update_self f i v = ground arith

  pub update_ne : (f : ℕ → A) (i j : ℕ) (v : A) → j ≢ i → update f i v j ≡ f j
  update_ne f i j v h = ground arith
