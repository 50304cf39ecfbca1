-- ===== src/Tests/Operators.antt =====
-- Joins, projections and queries over iterators of a list.
use redbase.Base.{
  ℕ, zero, suc, ◌+ℤ◌, ◌≡◌, refl, Bool, true, false, Option, none, some, List, [], ◌∷◌, ℤ, pos,
  negsuc,
}
use redbase.Bytes.{Bytes, Floats}
use redbase.Operator.Agg.{AggPlan, Agg, Column, agg_iterator, open_agg, get_next_group, close_agg}
use redbase.Operator.Join.{
  Plan, Join, Condition, make_join, join_attrs, join_iterator, open_join, get_next_pair, pair,
  close_join,
}
use redbase.Operator.Project.{AggRelAttr, make_projection, projection, get_projected}
use redbase.Operator.Sort.{
  SortPlan, Sort, sort_status, sort_iterator, open_sort, get_next_sorted, close_sort,
}
use redbase.Tests.Predicates.{by_first_byte}
use redbase.Operator.{DataAttrInfo, Iterator, AggFun, no_f, max_f, at, print_iterator}
use redbase.Types.{string, eq_op}

record ListScan : Type 0 where
  rest : List Bytes
  is_open : Bool

abbrev list_next : Bytes → ListScan → List Bytes → Option (ListScan × Bytes × ℤ)
list_next t s [] = some (s, t, negsuc 408)
list_next t s (x ∷ xs) = some (record s { rest = xs }, x, pos 0)

abbrev list_iterator : List DataAttrInfo → List Bytes → Iterator ListScan
list_iterator attrs all = record {
  attrs = attrs;
  eof = negsuc 408;
  open_iter = λ s. some (record { rest = all; is_open = true }, pos 0);
  close = λ s. (record s { is_open = false }, pos 0);
  get_next = λ t s. list_next t s s.rest;
}

abbrev no_floats : Floats
no_floats = record { lt = λ a b. false; eq = λ a b. false }

-- An attribute of one character.
abbrev char_attr : ℤ → ℕ → DataAttrInfo
char_attr k name = record {
  offset = k;
  attr_type = string;
  attr_length = 1;
  index_no = negsuc 0;
  rel_name = [];
  attr_name = name ∷ [];
  func = no_f;
}

abbrev bytes_of : ℕ → ℕ → Bytes
bytes_of a b zero = a
bytes_of a b (suc zero) = b
bytes_of a b (suc (suc i)) = 0

abbrev left_attrs : List DataAttrInfo
left_attrs = char_attr (pos 0) 97 ∷ char_attr (pos 1) 98 ∷ []

abbrev right_attrs : List DataAttrInfo
right_attrs = char_attr (pos 0) 99 ∷ char_attr (pos 1) 100 ∷ []

abbrev left_rows : List Bytes
left_rows = bytes_of 1 2 ∷ bytes_of 3 4 ∷ []

abbrev right_rows : List Bytes
right_rows = bytes_of 4 5 ∷ bytes_of 2 6 ∷ bytes_of 4 7 ∷ []

abbrev left_it : Iterator ListScan
left_it = list_iterator left_attrs left_rows

abbrev right_it : Iterator ListScan
right_it = list_iterator right_attrs right_rows

abbrev idle : ListScan
idle = record { rest = []; is_open = false }

-- The join on b = c, its condition written from right to left.
abbrev conditions : List Condition
conditions = record { lhs_attr = 99 ∷ []; op = eq_op; rhs_attr = 98 ∷ [] } ∷ []

abbrev made : Plan × Join ListScan ListScan × ℤ
made = make_join left_it right_it conditions 9 idle idle

abbrev made_plan : Plan
made_plan = made.0

abbrev closed_join : Join ListScan ListScan
closed_join = made.1

-- The attributes d and a of the pairs.
abbrev projections : List AggRelAttr
projections =
    record { func = no_f; rel_name = some []; attr_name = some (100 ∷ []) }
    ∷ record { func = no_f; rel_name = some []; attr_name = some (97 ∷ []) }
    ∷ []

first_bytes : List Bytes → List (ℕ × ℕ)
first_bytes [] = []
first_bytes (x ∷ xs) = (x 0, x 1) ∷ first_bytes xs

printed_bytes : {I : Type 0} → Option (I × List Bytes × ℤ) → Option (List (ℕ × ℕ) × ℤ)
unfolding first_bytes
printed_bytes none = none
printed_bytes (some r) = some (first_bytes r.1, r.2)

make_join_runs : made.2 ≡ pos 0
unfolding make_join
make_join_runs = refl

query_runs :
    printed_bytes (
      print_iterator
        (projection
          (join_iterator no_floats made_plan left_it right_it)
          ((make_projection (join_attrs left_attrs right_attrs) projections).0))
        9
        (λ _. 0)
        closed_join)
    ≡ some ((6, 1) ∷ (5, 3) ∷ (7, 3) ∷ [], pos 0)
unfolding printed_bytes print_iterator make_join make_projection join_attrs open_join get_projected
    get_next_pair ◌+ℤ◌ pair close_join
query_runs = refl

-- `Open` does not look at the end of an empty left input, so the cleared tuple meets the right ones.
empty_left_runs :
    printed_bytes (
      print_iterator
        (join_iterator no_floats
          (record made_plan { o_filters = [] })
          (list_iterator left_attrs [])
          right_it)
        9
        (λ _. 0)
        closed_join)
    ≡ some ((0, 0) ∷ (0, 0) ∷ (0, 0) ∷ [], pos 0)
unfolding printed_bytes print_iterator make_join open_join get_next_pair pair close_join
empty_left_runs = refl

-- A descending sort by the first attribute.
abbrev sort_plan : SortPlan
sort_plan = record { key_type = string; key_length = 1; key_offset = 0; desc = true; fuel = 4 }

sort_status_runs :
    (sort_status right_attrs (pos 1) (pos 0) ≡ pos 0)
    × (sort_status right_attrs (pos 1) (pos 2) ≡ negsuc 303)
unfolding sort_status ◌+ℤ◌
sort_status_runs = (refl, refl)

abbrev closed_sort : Sort ListScan
closed_sort = record { lhs = idle; set = []; it = []; rit = []; iter_open = false }

sort_runs :
    printed_bytes
      (print_iterator (sort_iterator by_first_byte sort_plan right_it) 4 (λ _. 0) closed_sort)
    ≡ some ((4, 7) ∷ (4, 5) ∷ (2, 6) ∷ [], pos 0)
unfolding printed_bytes print_iterator open_sort get_next_sorted close_sort
sort_runs = refl

abbrev column : ℕ → AggFun → Column
column k fun = record {
  source = char_attr (pos k) 97;
  target = char_attr (pos k) 97;
  place = k;
  fun = fun;
}

-- A group by the first attribute, with the largest second one.
abbrev agg_plan : AggPlan
agg_plan = record {
  group = char_attr (pos 0) 97;
  group_place = 0;
  columns = column 0 no_f ∷ column 1 max_f ∷ [];
  fuel = 4;
}

abbrev closed_agg : Agg ListScan
closed_agg = record { lhs = idle; set = []; it = []; iter_open = false }

-- The largest value is compared with the tuple before the one that is copied.
max_runs :
    printed_bytes (
      print_iterator
        (agg_iterator by_first_byte agg_plan
          (list_iterator left_attrs (bytes_of 1 5 ∷ bytes_of 1 3 ∷ bytes_of 2 7 ∷ []))
          (λ _. 0))
        4
        (λ _. 0)
        closed_agg)
    ≡ some ((1, 3) ∷ (2, 7) ∷ [], pos 0)
unfolding printed_bytes print_iterator open_agg get_next_group close_agg at
max_runs = refl
