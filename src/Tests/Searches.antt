-- ===== src/Tests/Searches.antt =====
-- The theorems on the index at a tree of two leaves, over a file whose pages the buffer holds.
use redbase.Base.{ℕ, ◌≡◌, refl, ℤ, pos, Option, some, true, arith}
use redbase.Btree.Compare.{cmp_int, int_order}
use redbase.Btree.Key.{eq0}
use redbase.Index.Adds
use redbase.Index.Exists
use redbase.Index.Adds.{IsBtree}
use redbase.Index.Files.{paged_file}
use redbase.Index.Insert.{insert_entry}
use redbase.Index.Path.{find_leaf, search}
use redbase.Index.Plus.{Plus}
use redbase.Index.Reach
use redbase.Index.Reach.{IsIndex, IsWay}
use redbase.Index.Search
use redbase.Index.Search.{Answers}
use redbase.Index.Served.{paged_file-Serves}
use redbase.Index.Tree.{Holds, HasKey, leaf_for}
use redbase.Index.{Index, Pages, entry_exists}
use redbase.Paged.File.Held.{IsReady}
use redbase.Paged.File.{State}
use redbase.Paged.Outcome.{ok, err}
use redbase.Record.Rid.{Rid}
use redbase.Tests.Held.{disk, OneToThree}
use redbase.Tests.Indexes.{rid}
use redbase.Tests.Trees.{
  nodes, opened, opened-IsIndex, opened-IsBtree, new_rid, room_for_four, has_five,
}

-- The program's paged file, and that it serves.
abbrev pf : Pages (State Unit)
pf = paged_file ⦃os = disk⦄

find_leaf-reaches_example :
    (q : State Unit) × (path : ℕ → Option ℤ) × (at : ℕ → ℤ) × (find_leaf ⦃key = int_order⦄ ⦃pf = pf⦄
        (pos 4)
        opened
      ≡ ok
          (record opened { pages = q; path = path; path_pos = at })
          (some (leaf_for ⦃key = int_order⦄ (pos 4) nodes 1 (pos 3))))
    × IsWay ⦃key = int_order⦄ (pos 4) nodes 0 1 (pos 3) path at
    × (HasKey ⦃key = int_order⦄ (pos 4) nodes 1 (pos 3)
        → HasKey ⦃key = int_order⦄
            (pos 4)
            nodes
            0
            (leaf_for ⦃key = int_order⦄ (pos 4) nodes 1 (pos 3)))
    × ((k : ℤ) (r : Rid)
        → Holds ⦃key = int_order⦄ nodes 0 (leaf_for ⦃key = int_order⦄ (pos 4) nodes 1 (pos 3)) k r
        → Holds ⦃key = int_order⦄ nodes 1 (pos 3) k r)
    × IsIndex ⦃key = int_order⦄ OneToThree
        (IsReady OneToThree 7)
        (record opened { pages = q; path = path; path_pos = at })
        1
        (pos 3)
find_leaf-reaches_example =
    Reach.find_leaf-reaches ⦃key = int_order⦄ ⦃pf = pf⦄ (paged_file-Serves ⦃os = disk⦄ OneToThree) 7
      (pos 4) opened 1 (pos 3) (opened-IsIndex 8 (omega arith))

search-Answers_example :
    Answers ⦃key = int_order⦄
      (pos 5)
      nodes
      1
      (pos 3)
      (search ⦃key = int_order⦄ ⦃pf = pf⦄ (some (pos 5)) opened)
search-Answers_example =
    Search.search-Answers ⦃key = int_order⦄ ⦃pf = pf⦄ (paged_file-Serves ⦃os = disk⦄ OneToThree) 7
      (pos 5) opened 1 (pos 3) (opened-IsIndex 8 (omega arith))

insert_entry-adds_example :
    (t : Index ℤ (State Unit)) × (insert_entry ⦃key = int_order⦄ ⦃pf = pf⦄
        (some (pos 4))
        (rid 4)
        opened
      ≡ ok t tt)
    × IsBtree ⦃key = int_order⦄ OneToThree (IsReady OneToThree 7) t 1 (pos 3)
    × Plus ⦃key = int_order⦄
        (pos 4)
        (rid 4)
        (Holds ⦃key = int_order⦄ nodes 1 (pos 3))
        (Holds ⦃key = int_order⦄ t.nodes 1 (pos 3))
insert_entry-adds_example =
    Adds.insert_entry-adds ⦃key = int_order⦄ ⦃pf = pf⦄ (paged_file-Serves ⦃os = disk⦄ OneToThree) 7
      (pos 4) (rid 4) opened 1 (pos 3) (opened-IsBtree 8 (omega arith)) (λ e. absurd (cc e))
      (λ k h _. new_rid k h) room_for_four

insert_entry-exists_example :
    (q : State Unit) × (path : ℕ → Option ℤ) × (at : ℕ → ℤ) × (insert_entry ⦃key = int_order⦄
        ⦃pf = pf⦄
        (some (pos 5))
        (rid 5)
        opened
      ≡ err (record opened { pages = q; path = path; path_pos = at }) entry_exists)
    × IsIndex ⦃key = int_order⦄ OneToThree
        (IsReady OneToThree 7)
        (record opened { pages = q; path = path; path_pos = at })
        1
        (pos 3)
unfolding cmp_int
insert_entry-exists_example =
    Exists.insert_entry-exists ⦃key = int_order⦄ ⦃pf = pf⦄
      (paged_file-Serves ⦃os = disk⦄ OneToThree) 7 (pos 5) (rid 5) opened 1 (pos 3) (pos 5)
      (opened-IsIndex 8 (omega arith)) has_five refl

search-insert_entry_example :
    (t u : Index ℤ (State Unit)) × (k : ℤ) × (r' : Rid) × (insert_entry ⦃key = int_order⦄ ⦃pf = pf⦄
        (some (pos 4))
        (rid 4)
        opened
      ≡ ok t tt)
    × (search ⦃key = int_order⦄ ⦃pf = pf⦄ (some (pos 4)) t ≡ ok u r')
    × Holds ⦃key = int_order⦄ t.nodes 1 (pos 3) k r'
    × (eq0 (int_order.cmp (pos 4) k) ≡ true)
search-insert_entry_example =
    Exists.search-insert_entry ⦃key = int_order⦄ ⦃pf = pf⦄
      (paged_file-Serves ⦃os = disk⦄ OneToThree) 7 (pos 4) (rid 4) opened 1 (pos 3)
      (opened-IsBtree 9 (omega arith)) (λ e. absurd (cc e)) (λ k h _. new_rid k h) room_for_four
