-- ===== src/Predicate.antt =====
-- `Predicate` of src/predicate.h and src/predicate.cc: the condition of a scan on one attribute.
pub mod Laws
use redbase.Base.{
  ℕ, ◌≡◌, Bool, true, false, not, ◌||◌, Option, none, some, if◌then◌else◌, ltb_ℤ, eqb_ℤ,
}
use redbase.Btree.Key.{lt0, gt0, eq0}
use redbase.Bytes.{Bytes, Floats, strncmp, read_int, offset}
use redbase.Types.{
  AttrType, int, float, string, CompOp, no_op, eq_op, ne_op, lt_op, gt_op, le_op, ge_op,
}

pub record Predicate : Type 0 where
  pub attr_type : AttrType
  pub attr_length : ℕ
  pub attr_offset : ℕ
  pub comp_op : CompOp
  pub value : Option Bytes

-- The three comparisons that `eval` makes itself.
unfoldable pub less : Floats → AttrType → ℕ → Bytes → Bytes → Bool
unfolding strncmp read_int
less f int len a b = ltb_ℤ (read_int a) (read_int b)
less f float len a b = f.lt a b
less f string len a b = lt0 (strncmp len a b)

unfoldable pub greater : Floats → AttrType → ℕ → Bytes → Bytes → Bool
unfolding strncmp read_int
greater f int len a b = ltb_ℤ (read_int b) (read_int a)
greater f float len a b = f.lt b a
greater f string len a b = gt0 (strncmp len a b)

unfoldable pub same : Floats → AttrType → ℕ → Bytes → Bytes → Bool
unfolding strncmp read_int
same f int len a b = eqb_ℤ (read_int a) (read_int b)
same f float len a b = f.eq a b
same f string len a b = eq0 (strncmp len a b)

-- `eval` on the attribute and the value that it is compared with, for each operator.
unfoldable pub eval_op : Floats → AttrType → ℕ → Bytes → Bytes → CompOp → Bool
unfolding less greater same
eval_op f t len a b no_op = true
eval_op f t len a b lt_op = less f t len a b
eval_op f t len a b gt_op = greater f t len a b
eval_op f t len a b eq_op = same f t len a b
eval_op f t len a b le_op = less f t len a b || same f t len a b
eval_op f t len a b ge_op = greater f t len a b || same f t len a b
eval_op f t len a b ne_op = not (same f t len a b)

-- The value of the right side: the argument, or the predicate's own if the argument is null.
unfoldable pub right_side : Predicate → Option Bytes → Option Bytes
right_side p (some b) = some b
right_side p none = p.value

-- `eval(buf, rhs, c)`; without any value every record passes.
unfoldable pub eval : Floats → Predicate → Bytes → Option Bytes → CompOp → Bool
unfolding eval_op right_side
eval f p buf rhs c = elim (right_side p rhs) [
  | none ↦ true
  | some b ↦ eval_op f p.attr_type p.attr_length (offset p.attr_offset buf) b c
]
