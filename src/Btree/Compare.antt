-- ===== src/Btree/Compare.antt =====
-- `BtreeNode::CmpKey` of src/btree_node.cc: it is the order that the node relies on.
use redbase.Base.{
  ℕ, zero, suc, ◌≡◌, refl, true, false, arith, if◌then◌else◌, ℤ, pos, negsuc, ltb_ℤ, eqb_ℤ,
}
use redbase.Btree.Key.{KeyOrder, eq0, lt0, gt0, le0}
use redbase.Bytes.{Bytes, Floats, memcmp, compare_byte, read_int, offset}
use redbase.Types.{AttrType, int, float, string}

-- The three tests on two integers, in the code's order.
unfoldable pub cmp_int : ℤ → ℤ → ℤ
cmp_int a b =
    if ltb_ℤ b a then pos 1 else if eqb_ℤ a b then pos 0 else if ltb_ℤ a b then negsuc 0 else pos 0

-- The same on floats: when no test holds, the function ends with 0.
unfoldable pub cmp_float : Floats → Bytes → Bytes → ℤ
cmp_float f a b =
    if f.lt b a then pos 1 else if f.eq a b then pos 0 else if f.lt a b then negsuc 0 else pos 0

unfoldable pub cmp_key : Floats → AttrType → ℕ → Bytes → Bytes → ℤ
unfolding memcmp cmp_float cmp_int read_int
cmp_key f string len a b = memcmp len a b
cmp_key f float len a b = cmp_float f a b
cmp_key f int len a b = cmp_int (read_int a) (read_int b)

-- The laws of a total preorder, for a comparison by sign.
pub record IsOrder {A : Type 0} (cmp : A → A → ℤ) : Type 0 where
  pub same : (a : A) → eq0 (cmp a a) ≡ true
  pub flip : (a b : A) → lt0 (cmp a b) ≡ gt0 (cmp b a)
  pub trans : (a b c : A) → le0 (cmp a b) ≡ true → le0 (cmp b c) ≡ true → le0 (cmp a c) ≡ true

pub cmp_int-IsOrder : IsOrder cmp_int
unfolding cmp_int
cmp_int-IsOrder = record {
  same = λ a. ground arith;
  flip = λ a b. ground arith;
  trans = λ a b c p q. ground arith;
}

memcmp_same : (n : ℕ) (a : Bytes) → eq0 (memcmp n a a) ≡ true
unfolding memcmp compare_byte
memcmp_same zero a = refl
memcmp_same (suc n) a = ground (arith, memcmp_same n (offset 1 a))

memcmp_flip : (n : ℕ) (a b : Bytes) → lt0 (memcmp n a b) ≡ gt0 (memcmp n b a)
unfolding memcmp compare_byte
memcmp_flip zero a b = refl
memcmp_flip (suc n) a b = ground (arith, memcmp_flip n (offset 1 a) (offset 1 b))

memcmp_trans :
    (n : ℕ) (a b c : Bytes)
    → le0 (memcmp n a b) ≡ true
    → le0 (memcmp n b c) ≡ true
    → le0 (memcmp n a c) ≡ true
unfolding memcmp compare_byte
memcmp_trans zero a b c p q = refl
memcmp_trans (suc n) a b c p q =
    ground (arith, memcmp_trans n (offset 1 a) (offset 1 b) (offset 1 c))

-- What the code relies on of float comparisons: they are those of a total preorder, which holds
-- of all floats but not-a-number.
pub record IsTotal (f : Floats) : Type 0 where
  pub eq_same : (a : Bytes) → f.eq a a ≡ true
  pub not_both : (a b : Bytes) → f.lt a b ≡ true → f.lt b a ≡ false
  pub not_eq : (a b : Bytes) → f.lt a b ≡ true → (f.eq a b ≡ false) × (f.eq b a ≡ false)
  pub total : (a b : Bytes) → f.lt a b ≡ false → f.eq a b ≡ false → f.lt b a ≡ true
  pub trans : (a b c : Bytes) → f.lt b a ≡ false → f.lt c b ≡ false → f.lt c a ≡ false

cmp_float-IsOrder : (f : Floats) → IsTotal f → IsOrder (cmp_float f)
unfolding cmp_float
cmp_float-IsOrder f t = record {
  same = λ a. ground (arith, t.eq_same a, t.not_both a a);
  flip = λ a b.
      ground (
        arith,
        t.not_both a b,
        t.not_both b a,
        t.not_eq a b,
        t.not_eq b a,
        t.total a b,
        t.total b a,
      );
  trans = λ a b c p q. ground (arith, t.trans a b c);
}

-- `CmpKey` is a total preorder by its sign for each attribute type, for floats as far as the
-- machine's comparisons are one.
pub cmp_key-IsOrder : (f : Floats) (t : AttrType) (len : ℕ) → IsTotal f → IsOrder (cmp_key f t len)
unfolding cmp_key
cmp_key-IsOrder f int len total = record {
  same = λ a. cmp_int-IsOrder.same (read_int a);
  flip = λ a b. cmp_int-IsOrder.flip (read_int a) (read_int b);
  trans = λ a b c. cmp_int-IsOrder.trans (read_int a) (read_int b) (read_int c);
}
cmp_key-IsOrder f float len total = cmp_float-IsOrder f total
cmp_key-IsOrder f string len total = record {
  same = memcmp_same len;
  flip = memcmp_flip len;
  trans = memcmp_trans len;
}

-- The order of the keys of an index, for the node's theorems.
abbrev pub key_order : (f : Floats) (t : AttrType) (len : ℕ) → IsTotal f → KeyOrder Bytes
key_order f t len total =
    let o = cmp_key-IsOrder f t len total in
    record { cmp = cmp_key f t len; cmp_refl = o.same; cmp_flip = o.flip; cmp_trans = o.trans }

-- The order of decoded integer keys.
instance abbrev pub int_order : KeyOrder ℤ
int_order = record {
  cmp = cmp_int;
  cmp_refl = cmp_int-IsOrder.same;
  cmp_flip = cmp_int-IsOrder.flip;
  cmp_trans = cmp_int-IsOrder.trans;
}
