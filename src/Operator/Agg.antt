-- ===== src/Operator/Agg.antt =====
-- `Agg` of src/agg.h: the groups of a sorted input. Its columns, which the constructor finds, are given.
use redbase.Base.{
  ℕ, zero, suc, ◌+ℤ◌, Bool, true, false, Option, none, some, if◌then◌else◌, List, [], ◌∷◌, ◌++◌,
  map, ◌||◌, ℤ, pos, negsuc, eqb_ℤ,
}
use redbase.Bytes.{Bytes, Floats, offset, copy_at, read_int, write_int}
use redbase.Operator.{AggFun, no_f, min_f, max_f, count_f, sum_f, avg_f, DataAttrInfo, at, Iterator}
use redbase.Predicate.{Predicate, eval}
use redbase.Record.File.{not_open}
use redbase.Record.Scan.{handle_open}
use redbase.Types.{AttrType, CompOp, gt_op, eq_op}

-- An entry of `lattrs`, `attrs` and `aggs`: the attribute of the input, the one of the output and its
-- offset, and the function. A counted attribute has 4 bytes.
pub record Column : Type 0 where
  pub source : DataAttrInfo
  pub target : DataAttrInfo
  pub place : ℕ
  pub fun : AggFun

-- The `operator()` of a `TupleCmp`.
unfoldable pub tuple_cmp : Floats → AttrType → ℕ → ℕ → CompOp → Bytes → Bytes → Bool
unfolding eval
tuple_cmp f type len k op l r =
    let pred : Predicate = record {
      attr_type = type;
      attr_length = len;
      attr_offset = k;
      comp_op = op;
      value = none;
    } in
    eval f pred l (some (offset k r)) op

abbrev pub copy_field : Column → Bytes → Bytes → Bytes
copy_field c lbuf buf = copy_at c.place c.target.attr_length (at c.source.offset lbuf) buf

-- `attrCmps[i]`: greater, at the place of the output attribute in both tuples.
abbrev pub is_greater : Floats → Column → Bytes → Bytes → Bool
is_greater f c = tuple_cmp f c.target.attr_type c.target.attr_length c.place gt_op

-- A column of the output for a tuple of the group at hand, and for the first one of a new group.
unfoldable pub same_group : Floats → Bool → Bytes → Bytes → Column → AggFun → Bytes → Bytes
unfolding tuple_cmp copy_at read_int write_int ◌+ℤ◌
same_group f first prev lbuf c no_f buf = copy_field c lbuf buf
same_group f first prev lbuf c max_f buf =
    if is_greater f c prev buf then copy_field c lbuf buf else buf
same_group f first prev lbuf c min_f buf =
    if is_greater f c buf prev then copy_field c lbuf buf else buf
same_group f first prev lbuf c count_f buf =
    let count = if first then pos 0 else read_int (offset c.place buf) in
    copy_at c.place c.target.attr_length (write_int (count +ℤ pos 1)) buf
same_group f first prev lbuf c sum_f buf = buf
same_group f first prev lbuf c avg_f buf = buf

unfoldable pub new_group : Bytes → Column → AggFun → Bytes → Bytes
unfolding copy_at write_int
new_group lbuf c no_f buf = copy_field c lbuf buf
new_group lbuf c max_f buf = copy_field c lbuf buf
new_group lbuf c min_f buf = copy_field c lbuf buf
new_group lbuf c count_f buf = copy_at c.place 4 (write_int (pos 1)) buf
new_group lbuf c sum_f buf = buf
new_group lbuf c avg_f buf = buf

-- The loops over the columns.
unfoldable pub same_columns : Floats → Bool → Bytes → Bytes → List Column → Bytes → Bytes
unfolding same_group
same_columns f first prev lbuf [] buf = buf
same_columns f first prev lbuf (c ∷ cs) buf =
    same_columns f first prev lbuf cs (same_group f first prev lbuf c c.fun buf)

unfoldable pub new_columns : Bytes → List Column → Bytes → Bytes
unfolding new_group
new_columns lbuf [] buf = buf
new_columns lbuf (c ∷ cs) buf = new_columns lbuf cs (new_group lbuf c c.fun buf)

-- What the operator keeps from its construction on; `fuel` bounds the loop of `Open`.
pub record AggPlan : Type 0 where
  pub group : DataAttrInfo
  pub group_place : ℕ
  pub columns : List Column
  pub fuel : ℕ

pub record Agg (I : Type 0) : Type 0 where
  pub lhs : I
  pub set : List Bytes
  pub it : List Bytes
  pub iter_open : Bool

module _ {I : Type 0} (f : Floats) (p : AggPlan) (lhs_it : Iterator I) where
  -- The loop of `Open` on `lt`, `prev`, `t`, `firstTime` and `set`.
  unfoldable pub load_groups :
      ℕ → Bytes → Bytes → Bytes → Bool → List Bytes → I → Option (I × List Bytes)
  unfolding tuple_cmp same_columns new_columns
  load_groups zero lt prev t first set s = none
  load_groups (suc n) lt prev t first set s = elim (lhs_it.get_next lt s) [
    | none ↦ none
    | some q ↦
        let lt' = q.1 in
        elim (eqb_ℤ q.2 lhs_it.eof) [
          | true ↦ some (q.0, if first then set else set ++ (t ∷ []))
          | false ↦
              elim (first
                || tuple_cmp f p.group.attr_type p.group.attr_length p.group_place eq_op prev lt') [
                  | true ↦
                      load_groups n lt' lt' (same_columns f first prev lt' p.columns t) false set
                        q.0
                  | false ↦
                      load_groups n lt' lt' (new_columns lt' p.columns t) first (set ++ (t ∷ []))
                        q.0
                ]
        ]
  ]

  -- `memory` is what the new tuples hold.
  unfoldable pub open_agg : Bytes → Agg I → Option (Agg I × ℤ)
  unfolding load_groups
  open_agg memory s = elim s.iter_open [
    | true ↦ some (s, handle_open)
    | false ↦ elim (lhs_it.open_iter s.lhs) [
      | none ↦ none
      | some q ↦ elim (eqb_ℤ q.1 (pos 0)) [
        | false ↦ some (record s { lhs = q.0 }, q.1)
        | true ↦ elim (load_groups p.fuel memory memory memory true s.set q.0) [
          | none ↦ none
          | some r ↦ some (record { lhs = r.0; set = r.1; it = r.1; iter_open = true }, pos 0)
        ]
      ]
    ]
  ]

  unfoldable pub get_next_group : Bytes → Agg I → Option (Agg I × Bytes × ℤ)
  get_next_group t s = elim s.iter_open [
    | false ↦ some (s, t, not_open)
    | true ↦ elim s.it [
      | [] ↦ some (s, t, negsuc 408)
      | x ∷ xs ↦ some (record s { it = xs }, x, pos 0)
    ]
  ]

  unfoldable pub close_agg : Agg I → Agg I × ℤ
  close_agg s = elim s.iter_open [
    | false ↦ (s, not_open)
    | true ↦
        let (l, code) = lhs_it.close s.lhs in
        elim (eqb_ℤ code (pos 0)) [
          | false ↦ (record s { lhs = l }, code)
          | true ↦ (record { lhs = l; set = []; it = []; iter_open = false }, pos 0)
        ]
  ]

  abbrev pub agg_iterator : Bytes → Iterator (Agg I)
  agg_iterator memory = record {
    attrs = map {A = Column} (λ c. c.target) p.columns;
    eof = negsuc 408;
    open_iter = open_agg memory;
    close = close_agg;
    get_next = get_next_group;
  }
