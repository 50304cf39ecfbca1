-- ===== src/Tests/Indexes.antt =====
-- An index of integer keys on a paged file that never fails.
use redbase.Base.{ℕ, ◌+◌, ◌≡◌, refl, ℤ, pos, negsuc, Option, none, some, false}
use redbase.Btree.Compare.{cmp_int, int_order}
use redbase.Btree.Node.{Node, new_node, insert, find_key}
use redbase.Index.Delete.{delete_entry, delete_at}
use redbase.Index.Insert.{insert_entry, insert_at_leaf, insert_noted, overflow}
use redbase.Index.Open.{open_index}
use redbase.Index.Path.{search, find_leaf}
use redbase.Index.{Pages, IxHdr, Index}
use redbase.Paged.Outcome.{Outcome, ok, err, fault, Op, ◌>>◌, pure}
use redbase.Record.Rid.{Rid, null_rid}

-- The state of the paged file is the number of its pages.
abbrev pub plain : Pages ℕ
plain = record {
  get = λ p. pure tt;
  mark = λ p. pure tt;
  unpin = λ p. pure tt;
  alloc = λ s. ok (s + 1) (pos s);
  dispose = λ p. pure tt;
  force = pure tt;
}

abbrev pub rid : ℕ → Rid
rid n = record { page = pos n; slot = pos n }

abbrev blank : Node ℤ
blank = record {
  keys = λ i. pos 0;
  rids = λ i. null_rid;
  stored_keys = 0;
  left = negsuc 0;
  right = negsuc 0;
  num_keys = 0;
  order = 3;
  page_rid = null_rid;
}

-- What `CreateIndex` leaves behind: a header page, for nodes of three entries.
abbrev pub created : IxHdr
created = record {
  num_pages = pos 1;
  page_size = 48;
  root_page = negsuc 0;
  pair_size = pos 12;
  order = 0;
  height = 0;
  attr_length = 4;
}

abbrev closed : Index ℤ ℕ
closed = record {
  pages = 1;
  nodes = λ p. blank;
  stored_hdr = created;
  hdr = created;
  file_open = false;
  has_handle = false;
  hdr_changed = false;
  root = none;
  has_path = false;
  path = λ i. none;
  path_pos = λ i. negsuc 0;
  tree_largest = pos 0;
}

abbrev put : ℤ → ℕ → Op (Index ℤ ℕ) (Unit {0})
put k r = insert_entry ⦃pf = plain⦄ (some k) (rid r)

abbrev five : Op (Index ℤ ℕ) (Unit {0})
five = do
  open_index ⦃pf = plain⦄ (some 1) (pos 12)
  put (pos 5) 5
  put (pos 3) 3
  put (pos 8) 8
  put (pos 1) 1
  put (pos 9) 9

-- What a search answers, with the height of the tree.
abbrev answer : Outcome (Index ℤ ℕ) Rid → Option (Rid × ℕ)
answer (ok s r) = some (r, s.hdr.height)
answer (err s c) = none
answer fault = none

-- The fifth key splits the root.
five-search : answer ((five >> search ⦃pf = plain⦄ (some (pos 8))) closed) ≡ some (rid 8, 2)
unfolding open_index insert_entry insert_at_leaf insert_noted overflow search find_leaf find_key
    insert new_node cmp_int
five-search = refl

five-delete :
    answer (
      (five
          >> delete_entry ⦃pf = plain⦄ (some (pos 8)) (rid 8)
          >> search ⦃pf = plain⦄ (some (pos 8)))
        closed)
    ≡ none
unfolding open_index insert_entry insert_at_leaf insert_noted overflow search find_leaf find_key
    insert new_node cmp_int delete_entry delete_at
five-delete = refl
