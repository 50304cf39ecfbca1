-- ===== src/Operator/Sort/Keys.antt =====
-- The comparison of `TupleCmp` (src/iterator.h) on the types of src/redbase.h.
use redbase.Base.{ℕ, zero, suc, ◌≡◌, refl, true, false, arith}
use redbase.Btree.Compare.{IsTotal}
use redbase.Btree.Key.{lt0}
use redbase.Bytes.{Bytes, Floats, offset, strncmp, compare_byte}
use redbase.Operator.Sort.Order.{IsWeakOrder}
use redbase.Operator.Sort.{SortPlan, tuple_less}
use redbase.Predicate.{eval, less}
use redbase.Types.{AttrType, int, float, string}

strncmp_asym : (n : ℕ) (a b : Bytes) → lt0 (strncmp n a b) ≡ true → lt0 (strncmp n b a) ≡ false
unfolding strncmp compare_byte
strncmp_asym zero a b h = refl
strncmp_asym (suc n) a b h = ground (arith, strncmp_asym n (offset 1 a) (offset 1 b))

strncmp_trans :
    (n : ℕ) (a b c : Bytes)
    → lt0 (strncmp n b a) ≡ false
    → lt0 (strncmp n c b) ≡ false
    → lt0 (strncmp n c a) ≡ false
unfolding strncmp compare_byte
strncmp_trans zero a b c h k = refl
strncmp_trans (suc n) a b c h k =
    ground (arith, strncmp_trans n (offset 1 a) (offset 1 b) (offset 1 c))

less-IsWeakOrder :
    (f : Floats) (t : AttrType) (len k : ℕ)
    → IsTotal f
    → IsWeakOrder (λ a b. less f t len (offset k a) (offset k b))
unfolding less
less-IsWeakOrder f int len k total = record {
  asym = λ a b h. ground arith;
  trans = λ a b c h h'. ground arith;
}
less-IsWeakOrder f float len k total = record {
  asym = λ a b h. total.not_both (offset k a) (offset k b) h;
  trans = λ a b c. total.trans (offset k a) (offset k b) (offset k c);
}
less-IsWeakOrder f string len k total = record {
  asym = λ a b. strncmp_asym len (offset k a) (offset k b);
  trans = λ a b c. strncmp_trans len (offset k a) (offset k b) (offset k c);
}

-- The ascending comparison of two tuples is a strict weak order, for each type of the key.
pub tuple_less-IsWeakOrder : (f : Floats) (p : SortPlan) → IsTotal f → IsWeakOrder (tuple_less f p)
unfolding tuple_less eval
tuple_less-IsWeakOrder f p total = less-IsWeakOrder f p.key_type p.key_length p.key_offset total
