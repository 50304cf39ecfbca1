-- ===== src/Predicate/Laws.antt =====
-- What the operators of a predicate mean.
use redbase.Base.{
  ℕ, ◌≡◌, refl, Bool, true, false, not, ◌||◌, ◌&&◌, Option-cases, inl, inr, arith, Option, none, ℤ,
  ◌≢◌,
}
use redbase.Btree.Key.{lt0, gt0, eq0}
use redbase.Btree.Compare.{IsTotal}
use redbase.Bytes.{Bytes, Floats, strncmp, offset}
use redbase.Predicate.{Predicate, eval, eval_op, right_side, less, greater, same}
use redbase.Types.{
  AttrType, int, float, string, CompOp, no_op, eq_op, ne_op, lt_op, gt_op, le_op, ge_op,
}

-- Each operator beside its opposite.
abbrev pub opposite : CompOp → CompOp
opposite no_op = no_op
opposite eq_op = ne_op
opposite ne_op = eq_op
opposite lt_op = ge_op
opposite ge_op = lt_op
opposite gt_op = le_op
opposite le_op = gt_op

-- Exactly one of the three comparisons holds.
abbrev OneOf : Bool → Bool → Bool → Type 0
OneOf l e g = ((l || e) ≡ not g) × ((g || e) ≡ not l) × ((l && e) ≡ false) × ((g && e) ≡ false)

strncmp-OneOf : (z : ℤ) → OneOf (lt0 z) (eq0 z) (gt0 z)
strncmp-OneOf z = ground arith

trichotomy :
    (f : Floats) (t : AttrType) (len : ℕ) (a b : Bytes)
    → IsTotal f
    → OneOf (less f t len a b) (same f t len a b) (greater f t len a b)
unfolding less greater same
trichotomy f int len a b total = ground arith
trichotomy f float len a b total = ground (
  arith,
  total.not_both a b,
  total.not_both b a,
  total.not_eq a b,
  total.not_eq b a,
  total.total a b,
)
trichotomy f string len a b total = strncmp-OneOf (strncmp len a b)

eval_op-opposite :
    (f : Floats) (t : AttrType) (len : ℕ) (a b : Bytes) (c : CompOp)
    → IsTotal f
    → c ≢ no_op
    → eval_op f t len a b (opposite c) ≡ not (eval_op f t len a b c)
unfolding eval_op
eval_op-opposite f t len a b no_op total h = absurd (h refl)
eval_op-opposite f t len a b c total h = ground (arith, trichotomy f t len a b total)

-- On a record and a value, of each operator and its opposite exactly one holds (for floats: as far
-- as the machine's comparisons are a total preorder). Without a value every operator holds of
-- every record.
pub eval-opposite :
    (f : Floats) (p : Predicate) (buf : Bytes) (rhs : Option Bytes) (c : CompOp)
    → IsTotal f
    → c ≢ no_op
    → ((right_side p rhs ≢ none) → eval f p buf rhs (opposite c) ≡ not (eval f p buf rhs c))
      × ((right_side p rhs ≡ none) → eval f p buf rhs c ≡ true)
unfolding eval
eval-opposite f p buf rhs c total h = (
  λ some_value. elim (Option-cases (right_side p rhs)) [
    | inl e ↦ absurd (some_value e)
    | inr (b, e) ↦
        rw (e, eval)
          (eval_op-opposite f p.attr_type p.attr_length (offset p.attr_offset buf) b c total h)
  ],
  λ e. rw (e, eval),
)
