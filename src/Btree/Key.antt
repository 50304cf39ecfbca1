-- ===== src/Btree/Key.antt =====
-- The order of keys that a node relies on: `BtreeNode::CmpKey` behind its laws.
use redbase.Base.{zero, suc, Bool, true, false, not, ◌≡◌, arith, ℤ, pos, negsuc}

-- The tests that the code makes on the result of `CmpKey`.
abbrev pub lt0 : ℤ → Bool
lt0 (pos n) = false
lt0 (negsuc n) = true

abbrev pub eq0 : ℤ → Bool
eq0 (pos n) = elim n [ zero ↦ true | suc m ↦ false ]
eq0 (negsuc n) = false

abbrev pub gt0 : ℤ → Bool
gt0 (pos n) = elim n [ zero ↦ false | suc m ↦ true ]
gt0 (negsuc n) = false

abbrev pub ge0 : ℤ → Bool
ge0 z = not (lt0 z)

abbrev pub le0 : ℤ → Bool
le0 z = not (gt0 z)

-- A comparison function: a total preorder by its sign.
pub record KeyOrder {ℓ} (K : Type ℓ) : Type ℓ where
  pub cmp : K → K → ℤ
  pub cmp_refl : (a : K) → eq0 (cmp a a) ≡ true
  pub cmp_flip : (a b : K) → lt0 (cmp a b) ≡ gt0 (cmp b a)
  pub cmp_trans : (a b c : K) → le0 (cmp a b) ≡ true → le0 (cmp b c) ≡ true → le0 (cmp a c) ≡ true

pub lt0-ne0 : (z : ℤ) → lt0 z ≡ true → eq0 z ≡ false
lt0-ne0 z h = ground arith
