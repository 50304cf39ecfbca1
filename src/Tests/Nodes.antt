-- ===== src/Tests/Nodes.antt =====
-- A node of integer keys.
use redbase.Base.{
  ℕ, zero, suc, ◌+◌, ◌<◌, ◌≤◌, ◌≡◌, refl, arith, [], ◌∷◌, ℤ, pos, negsuc, true, update,
  if◌then◌else◌, ◌==◌, ◌*◌,
}
use redbase.Btree.Compare.{cmp_int, int_order}
use redbase.Btree.Find
use redbase.Btree.Insert
use redbase.Btree.Insert.{IsValid, IsSorted, IsPlace, IsInserted}
use redbase.Btree.Layout
use redbase.Btree.Merge
use redbase.Btree.Node.{
  Node, entries, new_node, node_order, insert, remove, remove_at, split, merge, find_key, find_addr,
  find_key_position, is_sorted,
}
use redbase.Btree.Order
use redbase.Btree.Position
use redbase.Btree.Remove
use redbase.Btree.Split
use redbase.Record.Rid.{Rid, null_rid}

abbrev rid : ℕ → Rid
rid n = record { page = pos n; slot = pos n }

-- A page for four entries: 60 bytes.
abbrev fresh : Node ℤ
fresh = record {
  keys = λ i. pos 0;
  rids = λ i. null_rid;
  stored_keys = 0;
  left = negsuc 0;
  right = negsuc 0;
  num_keys = 0;
  order = 4;
  page_rid = record { page = pos 9; slot = negsuc 0 };
}

new_node_runs : new_node 60 4 (pos 9) (λ i. pos 0) (λ i. null_rid) ≡ fresh
unfolding new_node
new_node_runs = refl

abbrev three_keys : ℕ → ℤ
three_keys zero = negsuc 4
three_keys (suc zero) = pos 7
three_keys (suc (suc i)) = pos 7

abbrev three : Node ℤ
three = record fresh {
  keys = three_keys;
  rids = rid;
  stored_keys = 3;
  num_keys = 3;
  right = pos 12;
  page_rid = record { page = pos 5; slot = negsuc 0 };
}

three-IsValid : IsValid three
three-IsValid = record { synced = refl; fits = omega arith }

fresh-IsValid : IsValid fresh
fresh-IsValid = record { synced = refl; fits = omega arith }

three-IsSorted : IsSorted three
unfolding cmp_int
three-IsSorted zero (suc zero) l l' = refl
three-IsSorted zero (suc (suc j)) l l' = refl
three-IsSorted (suc zero) (suc (suc j)) l l' = refl
three-IsSorted (suc (suc i)) (suc (suc j)) l l' = refl
three-IsSorted zero zero l l' = absurd (omega arith)
three-IsSorted (suc i) zero l l' = absurd (omega arith)
three-IsSorted (suc i) (suc zero) l l' = absurd (omega arith)

-- An equal key goes behind the others.
insert_runs :
    entries (insert (pos 7) (rid 8) three).0
    ≡ (negsuc 4, rid 0) ∷ (pos 7, rid 1) ∷ (pos 7, rid 2) ∷ (pos 7, rid 8) ∷ []
unfolding insert cmp_int
insert_runs = refl

remove_runs : entries (remove (negsuc 4) three).0 ≡ (pos 7, rid 1) ∷ (pos 7, rid 2) ∷ []
unfolding remove cmp_int
remove_runs = refl

split_runs :
    (entries (split three fresh).0 ≡ (negsuc 4, rid 0) ∷ (pos 7, rid 1) ∷ [])
    × (entries (split three fresh).1 ≡ (pos 7, rid 2) ∷ [])
unfolding split cmp_int
split_runs = (refl, refl)

insert-IsSorted_example : IsSorted (insert (pos 6) (rid 8) three).0
insert-IsSorted_example =
    Order.insert-IsSorted (pos 6) (rid 8) three three-IsValid (omega arith) three-IsSorted

IsSorted-is_sorted_example : is_sorted three ≡ true
IsSorted-is_sorted_example = Order.IsSorted-is_sorted three three-IsSorted

is_sorted-ignores_last_example :
    is_sorted (record three { keys = update three_keys 2 (negsuc 100) }) ≡ is_sorted three
is_sorted-ignores_last_example = Order.is_sorted-ignores_last (negsuc 100) three (omega arith)

find_key-Finds_example : Find.Finds (pos 7) (rid 1) three 3 (find_key (pos 7) (rid 1) three)
find_key-Finds_example = Find.find_key-Finds (pos 7) (rid 1) three

find_key-insert_example :
    (i : ℕ) × IsPlace (pos 7) three 3 i
    × IsInserted (pos 7) (rid 8) three (insert (pos 7) (rid 8) three).0 i
    × (find_key (pos 7) null_rid (insert (pos 7) (rid 8) three).0 ≡ pos i)
    × (find_addr (pos 7) (insert (pos 7) (rid 8) three).0 ≡ rid 8)
find_key-insert_example = Find.find_key-insert (pos 7) (rid 8) three three-IsValid (omega arith)

remove_lem_example : Find.Removes (pos 7) three
remove_lem_example = Find.remove_lem (pos 7) three three-IsValid

remove-insert_example : entries (remove (pos 6) (insert (pos 6) (rid 8) three).0).0 ≡ entries three
remove-insert_example = Find.remove-insert (pos 6) (rid 8) three three-IsValid (omega arith)

remove_at_lem_example :
    ((3 ≤ 1) → remove_at 1 three ≡ (three, negsuc 1))
    × (1 < 3
        → Remove.IsRemoved three (remove_at 1 three).0 1
          × ((remove_at 1 three).1 ≡ (if 3 == 1 then negsuc 0 else pos 0)))
remove_at_lem_example = Remove.remove_at_lem 1 three three-IsValid

find_key_position_lem_example :
    (p : ℕ) × (find_key_position (pos 6) three ≡ pos p)
    × Position.IsPosition (pos 6) three 3 p
    × ((j : ℕ) → j < p → Order.Le (three_keys j) (pos 6))
find_key_position_lem_example = Position.find_key_position_lem (pos 6) three three-IsSorted

split-IsSplit_example :
    ((split three fresh).2 ≡ pos 0)
    × Split.IsSplit three fresh (split three fresh).0 (split three fresh).1
split-IsSplit_example =
    Split.split-IsSplit three fresh three-IsValid three-IsSorted fresh-IsValid refl (omega arith)

-- A node with more room, and its right neighbour.
abbrev roomy : Node ℤ
roomy = record three { order = 6 }

abbrev neighbour : Node ℤ
neighbour = record three { left = pos 5; right = pos 40 }

merge-IsMerged_example :
    ((merge roomy neighbour).2 ≡ pos 0)
    × Merge.IsMerged roomy neighbour (merge roomy neighbour).0 (merge roomy neighbour).1
merge-IsMerged_example =
    Merge.merge-IsMerged roomy neighbour (record { synced = refl; fits = omega arith })
      three-IsSorted (record { synced = refl; fits = omega arith }) (omega arith)

node_order_lem_example :
    (node_order 4092 4 * (4 + 8) + 12 ≤ 4092) × (4092 < (node_order 4092 4 + 1) * (4 + 8) + 12)
node_order_lem_example = Layout.node_order_lem 4092 4 (omega arith)
