-- ===== src/Operator/Sort/Order.antt =====
-- The multiset that the operator of src/sort.h fills: in the order of its comparison, and with the same
-- tuples as the input.
use mathlib.Core.List.Permᴰ
use mathlib.Core.List.{Permᴰ}
use redbase.Base.{◌≡◌, refl, Bool, true, false, List, [], ◌∷◌, ◌++◌, Bool-cases, inl, inr}
use redbase.Bytes.{Bytes}
use redbase.Operator.Sort.{insert_tuple}

-- A strict weak order: what a multiset relies on of its comparison.
pub record IsWeakOrder (less : Bytes → Bytes → Bool) : Type 0 where
  pub asym : (a b : Bytes) → less a b ≡ true → less b a ≡ false
  pub trans : (a b c : Bytes) → less b a ≡ false → less c b ≡ false → less c a ≡ false

-- No tuple of the list is smaller.
abbrev pub AllNotLess : (Bytes → Bytes → Bool) → Bytes → List Bytes → Type 0
AllNotLess less x [] = Unit {0}
AllNotLess less x (y ∷ ys) = (less y x ≡ false) × AllNotLess less x ys

-- No tuple is smaller than one before it.
abbrev pub IsAscending : (Bytes → Bytes → Bool) → List Bytes → Type 0
IsAscending less [] = Unit {0}
IsAscending less (x ∷ xs) = AllNotLess less x xs × IsAscending less xs

-- The multiset after the insertions of a list, in its order.
unfoldable pub insert_all : (Bytes → Bytes → Bool) → List Bytes → List Bytes → List Bytes
unfolding insert_tuple
insert_all less [] set = set
insert_all less (x ∷ xs) set = insert_all less xs (insert_tuple less x set)

module _ (less : Bytes → Bytes → Bool) where
  insert_tuple-Perm : (x : Bytes) (ys : List Bytes) → Permᴰ (x ∷ ys) (insert_tuple less x ys)
  unfolding insert_tuple
  insert_tuple-Perm x [] = Permᴰ.refl (x ∷ [])
  insert_tuple-Perm x (y ∷ ys) = elim (Bool-cases (less x y)) [
    | inl e ↦ rw (e, insert_tuple) (Permᴰ.refl (x ∷ y ∷ ys))
    | inr e ↦
        rw (e, insert_tuple)
          (Permᴰ.trans (Permᴰ.swap refl refl) (Permᴰ.cons refl (insert_tuple-Perm x ys)))
  ]

  pub insert_all-Perm : (xs set : List Bytes) → Permᴰ (xs ++ set) (insert_all less xs set)
  unfolding insert_all
  insert_all-Perm [] set = Permᴰ.refl set
  insert_all-Perm (x ∷ xs) set = Permᴰ.trans (middle x xs set) (
      Permᴰ.trans (Permᴰ.append_left xs (insert_tuple-Perm x set))
        (insert_all-Perm xs (insert_tuple less x set)))
    where
      middle : (x : Bytes) (xs set : List Bytes) → Permᴰ (x ∷ (xs ++ set)) (xs ++ (x ∷ set))
      middle x [] set = Permᴰ.refl (x ∷ set)
      middle x (y ∷ xs) set = Permᴰ.trans (Permᴰ.swap refl refl) (Permᴰ.cons refl (middle x xs set))

  module _ (order : IsWeakOrder less) where
    AllNotLess-trans :
        (x y : Bytes) (ys : List Bytes)
        → less y x ≡ false
        → AllNotLess less y ys
        → AllNotLess less x ys
    AllNotLess-trans x y [] e all = tt
    AllNotLess-trans x y (z ∷ ys) e (first, all) =
        (order.trans x y z e first, AllNotLess-trans x y ys e all)

    insert_tuple-AllNotLess :
        (z x : Bytes) (ys : List Bytes)
        → less x z ≡ false
        → AllNotLess less z ys
        → AllNotLess less z (insert_tuple less x ys)
    unfolding insert_tuple
    insert_tuple-AllNotLess z x [] e all = (e, tt)
    insert_tuple-AllNotLess z x (y ∷ ys) e (first, all) = elim (Bool-cases (less x y)) [
      | inl h ↦ rw (h, insert_tuple) (e, (first, all))
      | inr h ↦ rw (h, insert_tuple) (first, insert_tuple-AllNotLess z x ys e all)
    ]

    insert_tuple-IsAscending :
        (x : Bytes) (ys : List Bytes)
        → IsAscending less ys
        → IsAscending less (insert_tuple less x ys)
    unfolding insert_tuple
    insert_tuple-IsAscending x [] up = (tt, tt)
    insert_tuple-IsAscending x (y ∷ ys) (first, up) = elim (Bool-cases (less x y)) [
      | inl h ↦
          rw (h, insert_tuple)
            ((order.asym x y h, AllNotLess-trans x y ys (order.asym x y h) first), (first, up))
      | inr h ↦
          rw (h, insert_tuple)
            (insert_tuple-AllNotLess y x ys h first, insert_tuple-IsAscending x ys up)
    ]

    pub insert_all-IsAscending :
        (xs set : List Bytes) → IsAscending less set → IsAscending less (insert_all less xs set)
    unfolding insert_all
    insert_all-IsAscending [] set up = up
    insert_all-IsAscending (x ∷ xs) set up =
        insert_all-IsAscending xs (insert_tuple less x set) (insert_tuple-IsAscending x set up)
