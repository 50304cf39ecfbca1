-- ===== src/Operator/Table.antt =====
-- `FileScan` of src/file_scan.cc, the iterator of the records of a table, and its `FilterEvaluator` of
-- src/filter_eval.h.
pub mod Tuples
pub mod Output
use redbase.Base.{
  ℕ, zero, suc, Bool, true, false, not, Option, none, some, ltb, if◌then◌else◌, List, [], ◌∷◌, ℤ,
  pos,
}
use redbase.Bytes.{Bytes, Floats, offset}
use redbase.Operator.{DataAttrInfo, tuple_length, Iterator}
use redbase.Paged.Buffer.{Os}
use redbase.Paged.Outcome.{ok, err, fault}
use redbase.Predicate.{Predicate, eval}
use redbase.Record.File.{not_open}
use redbase.Record.Scan.{RmFileScan, get_next_rec, reset_state, scan_is_open, handle_open, rm_eof}
use redbase.Types.{AttrType, CompOp}

-- The right side of a filter: another attribute of the record, or a value, which may be null.
pub data RightSide : Type 0 where
  attr : ℕ → RightSide
  value : Option Bytes → RightSide

pub record FilterMeta : Type 0 where
  pub type : AttrType
  pub length : ℕ
  pub offset : ℕ
  pub op : CompOp
  pub rhs : RightSide

own_value : RightSide → Option Bytes
own_value (attr k) = none
own_value (value v) = v

rhs_of : RightSide → Bytes → Option Bytes
rhs_of (attr k) buf = some (offset k buf)
rhs_of (value v) buf = v

-- `passes` of the evaluator.
unfoldable pub passes_all : Floats → List FilterMeta → Bytes → Bool
unfolding own_value rhs_of eval
passes_all f [] buf = true
passes_all f (m ∷ ms) buf =
    let rest = passes_all f ms buf in
    let p : Predicate = record {
      attr_type = m.type;
      attr_length = m.length;
      attr_offset = m.offset;
      comp_op = m.op;
      value = own_value m.rhs;
    } in
    if not (eval f p buf (rhs_of m.rhs buf) m.op) then false else rest

-- The members of the scan of a table. `fuel` bounds the rounds of `GetNext`.
pub record FileScan (F : Type 0) : Type 0 where
  pub rfs : RmFileScan F
  pub filters : List FilterMeta
  pub iter_open : Bool
  pub fuel : ℕ

-- `t.Set(buf)` of a record that was read: the tuple is an array of the length of the attributes, which the
-- call fills; the model has 0 behind it.
unfoldable pub set_tuple : List DataAttrInfo → Bytes → Bytes
unfolding tuple_length
set_tuple attrs buf i = if ltb i (tuple_length attrs) then buf i else 0

module _ {F : Type 0} where
  unfoldable pub open_table : FileScan F → FileScan F × ℤ
  unfolding scan_is_open
  open_table s =
      if s.iter_open
      then (s, handle_open)
      else if not (scan_is_open s.rfs)
      then (s, not_open)
      else (record s { iter_open = true }, pos 0)

  unfoldable pub close_table : FileScan F → FileScan F × ℤ
  unfolding scan_is_open reset_state
  close_table s =
      if not s.iter_open
      then (s, not_open)
      else if not (scan_is_open s.rfs)
      then (s, not_open)
      else (record s { iter_open = false; rfs = reset_state s.rfs }, pos 0)

module _ {F : Type 0} ⦃os : Os F⦄ (f : Floats) (memory : Bytes) (attrs : List DataAttrInfo) where
  -- The loop up to a record that the filters let through; a record without data would be read through
  -- a null pointer. The record object is the one of this call.
  unfoldable pub next_row : ℕ → Bytes → FileScan F → Option (FileScan F × Bytes × ℤ)
  unfolding get_next_rec passes_all set_tuple
  next_row zero t s = none
  next_row (suc n) t s = elim (get_next_rec f memory s.rfs) [
    | fault ↦ none
    | err r c ↦ some (record s { rfs = r }, t, c)
    | ok r _ ↦ elim r.rec [
      | none ↦ none
      | some q ↦ elim (passes_all f s.filters q.0) [
        | true ↦ some (record s { rfs = r }, set_tuple attrs q.0, pos 0)
        | false ↦ next_row n t (record s { rfs = r })
      ]
    ]
  ]

  unfoldable pub get_next_row : Bytes → FileScan F → Option (FileScan F × Bytes × ℤ)
  unfolding next_row scan_is_open
  get_next_row t s =
      let s' = record s { rfs = record s.rfs { rec = none } } in
      if not s.iter_open
      then some (s, t, not_open)
      else if not (scan_is_open s.rfs)
      then some (s, t, not_open)
      else next_row s.fuel t s'

  abbrev pub table_iterator : Iterator (FileScan F)
  table_iterator = record {
    attrs = attrs;
    eof = rm_eof;
    open_iter = λ s. some (open_table s);
    close = close_table;
    get_next = get_next_row;
  }
