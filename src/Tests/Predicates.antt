-- ===== src/Tests/Predicates.antt =====
-- Keys and predicates.
use redbase.Base.{zero, suc, ◌≡◌, ◌≢◌, refl, arith, ltb, ◌==◌, some, none, negsuc, true, not}
use redbase.Btree.Compare.{IsTotal, IsOrder, cmp_key, cmp_key-IsOrder}
use redbase.Bytes.{Bytes, Floats, read_int}
use redbase.Predicate.Laws.{eval-opposite}
use redbase.Predicate.{Predicate, eval, right_side}
use redbase.Types.{int, string, lt_op, ge_op, eq_op}

-- A float comparison that is a total preorder.
abbrev pub by_first_byte : Floats
by_first_byte = record { lt = λ a b. ltb (a 0) (b 0); eq = λ a b. a 0 == b 0 }

pub by_first_byte-IsTotal : IsTotal by_first_byte
by_first_byte-IsTotal = record {
  eq_same = λ a. ground arith;
  not_both = λ a b h. ground arith;
  not_eq = λ a b h. ground arith;
  total = λ a b h k. ground arith;
  trans = λ a b c h k. ground arith;
}

cmp_key-IsOrder_example : IsOrder (cmp_key by_first_byte string 3)
cmp_key-IsOrder_example = cmp_key-IsOrder by_first_byte string 3 by_first_byte-IsTotal

-- The bytes of -2, and of 5 at the offset 4.
abbrev record_bytes : Bytes
record_bytes zero = 254
record_bytes (suc zero) = 255
record_bytes (suc (suc zero)) = 255
record_bytes (suc (suc (suc zero))) = 255
record_bytes (suc (suc (suc (suc zero)))) = 5
record_bytes (suc (suc (suc (suc (suc i))))) = 0

read_int_runs : read_int record_bytes ≡ negsuc 1
unfolding read_int
read_int_runs = refl

abbrev five : Bytes
five zero = 5
five (suc i) = 0

abbrev condition : Predicate
condition = record {
  attr_type = int;
  attr_length = 4;
  attr_offset = 4;
  comp_op = eq_op;
  value = some five;
}

eval_runs :
    (eval by_first_byte condition record_bytes none eq_op ≡ true)
    × (eval by_first_byte (record condition { attr_offset = 0 }) record_bytes none lt_op ≡ true)
unfolding eval
eval_runs = (refl, refl)

eval-opposite_example :
    ((right_side condition none ≢ none)
      → eval by_first_byte condition record_bytes none ge_op
        ≡ not (eval by_first_byte condition record_bytes none lt_op))
    × ((right_side condition none ≡ none)
        → eval by_first_byte condition record_bytes none lt_op ≡ true)
eval-opposite_example =
    eval-opposite by_first_byte condition record_bytes none lt_op by_first_byte-IsTotal (λ e. cc e)
