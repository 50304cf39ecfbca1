-- ===== src/Operator.antt =====
-- `DataAttrInfo` of src/data_attr_info.h, `Iterator` and `Tuple` of src/iterator.h, and the loop of
-- `QL_Manager::PrintIterator` of src/ql_manager.cc that runs an iterator to its end.
pub mod Scans
pub mod Join
pub mod Project
pub mod Table
pub mod Sort
pub mod Agg
pub mod Select
use redbase.Base.{
  ℕ, zero, suc, ◌+◌, Bool, true, false, ◌&&◌, ◌==◌, Option, none, some, if◌then◌else◌, List, [],
  ◌∷◌, ℤ, pos, negsuc, eqb_ℤ,
}
use redbase.Bytes.{Bytes}
use redbase.Types.{AttrType}

pub data AggFun : Type 0 where
  no_f min_f max_f count_f sum_f avg_f : AggFun

-- A C string: its characters before the zero.
abbrev pub Name : Type 0
Name = List ℕ

-- `strcmp(a, b) == 0`
unfoldable pub same_name : Name → Name → Bool
same_name [] [] = true
same_name (x ∷ xs) (y ∷ ys) = let rest = same_name xs ys in (x == y) && rest
same_name xs ys = false

pub record DataAttrInfo : Type 0 where
  pub offset : ℤ
  pub attr_type : AttrType
  pub attr_length : ℕ
  pub index_no : ℤ
  pub rel_name : Name
  pub attr_name : Name
  pub func : AggFun

-- `data + offset`; the bytes before the array, which no attribute of a relation has, are 0.
unfoldable pub at : ℤ → Bytes → Bytes
at (pos n) buf i = buf (n + i)
at (negsuc n) buf i = 0

-- `TupleLength` of an iterator with these attributes.
unfoldable pub tuple_length : List DataAttrInfo → ℕ
tuple_length [] = 0
tuple_length (a ∷ attrs) = a.attr_length + tuple_length attrs

-- `Tuple::Get(attrName, p)`: the first attribute of the name; `p` stays null if there is none.
unfoldable pub get : List DataAttrInfo → Name → Bytes → Option Bytes
unfolding at same_name
get [] name buf = none
get (a ∷ attrs) name buf =
    let rest = get attrs name buf in
    if same_name a.attr_name name then some (at a.offset buf) else rest

-- An operator on a state `I`. `get_next` takes the bytes of the tuple and gives them back with the
-- code. Where a loop of an operator runs out of fuel the result is `none`.
pub record Iterator (I : Type 0) : Type 0 where
  pub attrs : List DataAttrInfo
  pub eof : ℤ
  pub open_iter : I → Option (I × ℤ)
  pub close : I → I × ℤ
  pub get_next : Bytes → I → Option (I × Bytes × ℤ)

module _ {I : Type 0} where
  -- The loop up to `Eof`: the state, the tuples that were printed, and the code. Another code ends it.
  unfoldable pub print_tuples : Iterator I → ℕ → Bytes → I → Option (I × List Bytes × ℤ)
  print_tuples it zero t s = none
  print_tuples it (suc fuel) t s = elim (it.get_next t s) [
    | none ↦ none
    | some r ↦ elim (eqb_ℤ r.2 it.eof) [
      | true ↦ some (r.0, [], pos 0)
      | false ↦ elim (eqb_ℤ r.2 (pos 0)) [
        | true ↦ elim (print_tuples it fuel r.1 r.0) [
          | none ↦ none
          | some q ↦ some (q.0, r.1 ∷ q.1, q.2)
        ]
        | false ↦ some (r.0, [], r.2)
      ]
    ]
  ]

  close_printed : Iterator I → I × List Bytes × ℤ → I × List Bytes × ℤ
  close_printed it r = elim (eqb_ℤ r.2 (pos 0)) [
    | true ↦ let (s, c) = it.close r.0 in (s, r.1, c)
    | false ↦ r
  ]

  -- `PrintIterator`: the tuples that it prints, and its code.
  unfoldable pub print_iterator : Iterator I → ℕ → Bytes → I → Option (I × List Bytes × ℤ)
  unfolding print_tuples close_printed
  print_iterator it fuel t s = elim (it.open_iter s) [
    | none ↦ none
    | some r ↦ elim (eqb_ℤ r.1 (pos 0)) [
      | true ↦ elim (print_tuples it fuel t r.0) [
        | none ↦ none
        | some q ↦ some (close_printed it q)
      ]
      | false ↦ some (r.0, [], r.1)
    ]
  ]
