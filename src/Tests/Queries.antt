-- ===== src/Tests/Queries.antt =====
-- Joins, projections, sorts and queries over the scans of two tables.
use redbase.Base.{◌≡◌, refl, true, some, List, [], ◌∷◌, map, ℤ, pos, arith}
use redbase.Bytes.{Bytes}
use redbase.Operator.Join.Output.{Shut, join_iterator-Scans}
use redbase.Operator.Join.Pairs.{joined}
use redbase.Operator.Join.{Plan, Join, Condition, make_join, join_attrs, join_iterator, passes}
use redbase.Operator.Project.Output.{packed, projection-Scans, make_projection-IsPacked}
use redbase.Operator.Project.{AggRelAttr, Field, make_projection, projection}
use redbase.Operator.Scans.{Scans, print_iterator-prints}
use redbase.Operator.Select.{query, print_iterator-query}
use redbase.Operator.Sort.Order.{IsAscending}
use redbase.Operator.Sort.Output.{SortShut, in_direction, sort_iterator-Sorts}
use redbase.Operator.Sort.{SortPlan, tuple_less, sort_iterator}
use redbase.Operator.Table.Output.{table_iterator-Scans}
use redbase.Operator.Table.Tuples.{table_rows}
use redbase.Operator.Table.{FileScan, passes_all}
use redbase.Operator.{no_f, print_iterator}
use redbase.Record.Page.{get_num_slots, from_buf}
use redbase.Record.Scan.Rows.{page_recs}
use redbase.Record.Scan.Slots.{recs}
use mathlib.Core.List.{Permᴰ}
use redbase.Tests.Held.{disk}
use redbase.Tests.Predicates.{by_first_byte, by_first_byte-IsTotal}
use redbase.Tests.Rows.{
  no_floats, zeros, all_records, rows_of, IsShut, idle, idle-IsShut, table_of, left_page,
  left_attrs, left_rows, right_page, right_attrs, right_rows, left_Scans, right_Scans,
}
use redbase.Types.{string, eq_op}

-- The join on b = c, its condition written from right to left.
abbrev conditions : List Condition
conditions = record { lhs_attr = 99 ∷ []; op = eq_op; rhs_attr = 98 ∷ [] } ∷ []

abbrev made : Plan × Join (FileScan Unit) (FileScan Unit) × ℤ
made =
    make_join (rows_of left_attrs) (rows_of right_attrs) conditions 9 (idle left_page)
      (idle right_page)

abbrev made_plan : Plan
made_plan = made.0

abbrev closed_join : Join (FileScan Unit) (FileScan Unit)
closed_join = made.1

-- The attributes d and a of the pairs.
abbrev projections : List AggRelAttr
projections =
    record { func = no_f; rel_name = some []; attr_name = some (100 ∷ []) }
    ∷ record { func = no_f; rel_name = some []; attr_name = some (97 ∷ []) }
    ∷ []

-- A descending sort by the first attribute.
abbrev sort_plan : SortPlan
sort_plan = record { key_type = string; key_length = 1; key_offset = 0; desc = true; fuel = 4 }

table_iterator-Scans_example :
    Scans
      (rows_of left_attrs)
      (table_rows no_floats zeros (table_of left_page) all_records [] left_attrs 0)
      (IsShut left_page)
unfolding page_recs recs redbase.Record.Bitmap.test redbase.Record.Slot.slot_map get_num_slots
    from_buf redbase.Predicate.eval
table_iterator-Scans_example =
    table_iterator-Scans ⦃os = disk⦄ no_floats zeros (table_of left_page) all_records [] left_attrs
      4 0 refl (omega arith)

left_idle : IsShut left_page (idle left_page)
left_idle = idle-IsShut 10 (1, 2) (0, 0) (3, 4)

right_idle : IsShut right_page (idle right_page)
right_idle = idle-IsShut 8 (4, 5) (2, 6) (4, 7)

closed_join-Shut : Shut (IsShut left_page) (IsShut right_page) closed_join
unfolding make_join
closed_join-Shut = (refl, left_idle, right_idle)

join_iterator-Scans_example :
    Scans
      (join_iterator no_floats made_plan (rows_of left_attrs) (rows_of right_attrs))
      (joined no_floats made_plan left_rows right_rows)
      (Shut (IsShut left_page) (IsShut right_page))
unfolding make_join
join_iterator-Scans_example =
    join_iterator-Scans no_floats made_plan left_Scans right_Scans (omega arith)

projection-Scans_example :
    Scans
      (projection (rows_of left_attrs) ((make_projection left_attrs projections).0))
      (map (packed ((make_projection left_attrs projections).0)) left_rows)
      (IsShut left_page)
projection-Scans_example =
    projection-Scans ((make_projection left_attrs projections).0) left_Scans
      (make_projection-IsPacked left_attrs projections)

print_iterator-prints_example :
    (u : (FileScan Unit)) × (print_iterator (rows_of left_attrs) 3 (λ _. 0) (idle left_page)
      ≡ some (u, left_rows, pos 0))
    × IsShut left_page u
print_iterator-prints_example =
    print_iterator-prints left_Scans 3 (λ _. 0) (idle left_page) (omega arith) left_idle

abbrev fields : List Field
fields = (make_projection (join_attrs made_plan.l_attrs made_plan.r_attrs) projections).0

print_iterator-query_example :
    (u : Join (FileScan Unit) (FileScan Unit)) × (print_iterator
        (query no_floats made_plan projections left_Scans right_Scans)
        9
        (λ _. 0)
        closed_join
      ≡ some (u, map (packed fields) (joined no_floats made_plan left_rows right_rows), pos 0))
    × Shut (IsShut left_page) (IsShut right_page) u
unfolding make_join joined passes redbase.Operator.Table.set_tuple redbase.Record.Page.slot_pointer
    redbase.Record.Page.size redbase.Operator.tuple_length get_num_slots
print_iterator-query_example =
    print_iterator-query no_floats made_plan projections left_Scans right_Scans (omega arith) 9
      (λ _. 0) closed_join (omega arith) closed_join-Shut

sort_iterator-Sorts_example :
    (rows : List Bytes) × Permᴰ right_rows rows
    × IsAscending (tuple_less by_first_byte sort_plan) rows
    × Scans
        (sort_iterator by_first_byte sort_plan (rows_of right_attrs))
        (in_direction true rows)
        (SortShut (IsShut right_page))
sort_iterator-Sorts_example =
    sort_iterator-Sorts by_first_byte sort_plan right_Scans by_first_byte-IsTotal (omega arith)
