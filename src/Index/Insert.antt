-- ===== src/Index/Insert.antt =====
-- `IX_IndexHandle::InsertEntry` of src/ix_indexhandle.cc: an entry goes into a leaf, and nodes that
-- are full split up to the root. What a pointer into a page shows is read at that moment.
use redbase.Base.{
  ℕ, zero, suc, ◌+◌, ◌-◌, Bool, true, false, ◌||◌, Option, none, some, if◌then◌else◌, ◌==◌, ℤ, pos,
  negsuc, eqb_ℤ,
}
use redbase.Btree.Key.{KeyOrder, ge0, gt0}
use redbase.Btree.Node.{
  Node, largest_key, find_key, insert, remove_at, split, set_key, get_num_keys,
}
use redbase.Index.Path.{find_leaf, path_at}
use redbase.Index.{
  Pages, Index, when_index_valid, pin_page, un_pin, get_index_page, get_new_page, make_node,
  fetch_node, set_node, put_node, set_height, if_below_0, with_code, deref, bad_key, entry_exists,
  ix_pf,
}
use redbase.Paged.Outcome.{ok, err, fault, Op, ◌>>=◌, ◌>>◌, pure, raise, modify}
use redbase.Record.Rid.{Rid, null_rid}

-- `Remove(NULL, position)` of a parent. At -1 the key is looked for, which is null.
unfoldable pub remove_child : {K : Type 0} → ℤ → Node K → Option (Node K × ℤ)
unfolding remove_at
remove_child (pos i) n = some (remove_at i n)
remove_child (negsuc zero) n = if n.num_keys == 0 then some (n, negsuc 1) else none
remove_child (negsuc (suc _)) n = some (n, negsuc 1)

-- The key `x` at a position of the node on a page, or a message for -1.
unfoldable pub raise_key : {K : Type 0} → K → ℤ → ℤ → (ℤ → Node K) → ℤ → Node K
unfolding set_key
raise_key x p (pos at) nodes = put_node p (set_key at x (nodes p)).0 nodes
raise_key x p (negsuc _) nodes = nodes

module _ {K S : Type 0} ⦃key : KeyOrder K⦄ ⦃pf : Pages S⦄ where
  -- A call of `Insert` on the node of a page, with its code.
  unfoldable pub insert_into : ℤ → K → Rid → Op (Index K S) ℤ
  insert_into p x r s = let (n, rc) = insert x r (s.nodes p) in ok (set_node p n s) rc

  -- The largest key of a node, which the code reads through the pointer.
  abbrev pub largest_of : ℤ → Op (Index K S) K
  largest_of p s = deref (largest_key (s.nodes p)) s

  abbrev pub rid_of : ℤ → Op (Index K S) Rid
  rid_of p s = ok s (s.nodes p).page_rid

  -- The old largest key of the tree gives way to the new one in the inner nodes of the path.
  unfoldable pub raise_largest : K → K → ℕ → ℕ → Op (Index K S) (Unit {0})
  unfolding raise_key
  raise_largest old x zero i s = ok s tt
  raise_largest old x (suc rounds) i s =
      ((do
        p ← path_at i
        modify
            (λ t. record t { nodes = raise_key x p (find_key old null_rid (t.nodes p)) t.nodes }))
          >> raise_largest old x rounds (suc i))
        s

  -- The new page of a node that is full: half of the entries go there, and the old right neighbour
  -- learns of its new left one.
  unfoldable pub split_off : ℤ → Op (Index K S) ℤ
  unfolding get_new_page get_index_page split fetch_node
  split_off node = do
    p ← get_new_page
    get_index_page p
    modify (make_node p)
    (λ s.
        let (kept, moved, rc) = split (s.nodes node) (s.nodes p) in
        let t = set_node p moved (set_node node kept s) in
        if eqb_ℤ rc (pos 0) then ok t tt else err t ix_pf)
    right ← (λ s. fetch_node (s.nodes p).right s)
    modify (λ s. elim right [
      | none ↦ s
      | some q ↦ set_node q (record (s.nodes q) { left = (s.nodes p).page_rid.page }) s
    ])
    pure p

  -- The entry that had no room goes into one of the two halves: which one, the key of the whole
  -- insertion decides at every level.
  unfoldable pub place_failed : K → K → Rid → ℤ → ℤ → Op (Index K S) (Unit {0})
  unfolding insert_into largest_key
  place_failed x failed_key failed_rid node new = do
    k ← largest_of node
    _ ← (λ s. elim (ge0 (key.cmp x k)) [
      | true ↦ insert_into new failed_key failed_rid s
      | false ↦ insert_into node failed_key failed_rid s
    ])
    pure tt

  -- The parent at `level` gets the two nodes in place of the old one. The answer is the code of its
  -- second insertion with what has failed if it is -1.
  unfoldable pub promote : ℕ → ℤ → ℤ → Op (Index K S) (ℤ × ℤ × K × Rid)
  unfolding remove_child insert_into largest_key
  promote level node new = do
    parent ← path_at level
    (λ s. elim (remove_child (s.path_pos level) (s.nodes parent)) [
      | none ↦ fault
      | some (n, _) ↦ ok (set_node parent n s) tt
    ])
    k ← largest_of node
    r ← rid_of node
    _ ← insert_into parent k r
    k' ← largest_of new
    r' ← rid_of new
    rc ← insert_into parent k' r'
    failed ← largest_of new
    pure (parent, rc, failed, r')

  -- The split of the root: a new root with the two nodes as its children.
  unfoldable pub grow_root : ℤ → ℤ → Op (Index K S) (Unit {0})
  unfolding un_pin get_new_page get_index_page largest_key insert_into pin_page set_height
  grow_root node new = do
    (λ s. if_below_0 (un_pin s.hdr.root_page) s)
    p ← with_code ix_pf get_new_page
    with_code ix_pf (get_index_page p)
    modify (λ s. record (make_node p s) { root = some p })
    k ← largest_of node
    r ← rid_of node
    _ ← insert_into p k r
    k' ← largest_of new
    r' ← rid_of new
    _ ← insert_into p k' r'
    modify (λ s. record s { hdr = record s.hdr { root_page = (s.nodes p).page_rid.page } })
    (λ s. pin_page s.hdr.root_page s)
    modify (λ s. set_height (s.hdr.height + 1) s)

  -- The loop on the overflow of the node at `level`, whose insertion of an entry has failed.
  unfoldable pub overflow : K → ℕ → ℤ → K → Rid → Op (Index K S) (Unit {0})
  unfolding split_off place_failed promote grow_root
  overflow x zero node failed_key failed_rid = do
    new ← split_off node
    place_failed x failed_key failed_rid node new
    grow_root node new
  overflow x (suc level) node failed_key failed_rid = do
    new ← split_off node
    place_failed x failed_key failed_rid node new
    (parent, rc, k, r) ← promote level node new
    elim (eqb_ℤ rc (negsuc 0)) [ true ↦ overflow x level parent k r | false ↦ pure tt ]

  -- A new largest key is noted in the inner nodes of the path and in `treeLargest`.
  unfoldable pub note_largest : K → Bool → Op (Index K S) (Unit {0})
  unfolding raise_largest
  note_largest x false s = ok s tt
  note_largest x true s =
      (raise_largest s.tree_largest x (s.hdr.height - 1) 0
          >> modify (λ t. record t { tree_largest = x }))
        s

  -- `InsertEntry` from its insertion into the leaf on.
  unfoldable pub insert_noted : K → Rid → ℤ → Bool → Op (Index K S) (Unit {0})
  unfolding insert_into note_largest
  insert_noted x r leaf new_largest s =
      let level = s.hdr.height - 1 in
      (do
        rc ← insert_into leaf x r
        note_largest x new_largest
        elim (eqb_ℤ rc (negsuc 0)) [ true ↦ overflow x level leaf x r | false ↦ pure tt ])
        s

  unfoldable pub insert_at_leaf : K → Rid → ℤ → Op (Index K S) (Unit {0})
  unfolding get_num_keys insert_noted
  insert_at_leaf x r leaf s =
      let n = get_num_keys (s.nodes leaf) in
      insert_noted x r leaf (n.num_keys == 0 || gt0 (key.cmp x s.tree_largest)) (set_node leaf n s)

  unfoldable pub insert_entry : Option K → Rid → Op (Index K S) (Unit {0})
  insert_entry given r = when_index_valid (elim given [
    | none ↦ raise bad_key
    | some x ↦ do
      found ← find_leaf x
      leaf ← deref found
      (λ s.
          if eqb_ℤ (find_key x r (s.nodes leaf)) (negsuc 0)
          then insert_at_leaf x r leaf s
          else err s entry_exists)
  ])
