-- ===== src/Index/Delete.antt =====
-- `IX_IndexHandle::DeleteEntry` of src/ix_indexhandle.cc: lazy deletion, where a node goes when it
-- is empty.
use redbase.Base.{
  ℕ, zero, suc, ◌-◌, true, false, ◌&&◌, ◌||◌, Option, none, some, if◌then◌else◌, ◌==◌, ℤ, pos,
  negsuc, pos_part, eqb_ℤ, ltb, ltb_ℤ,
}
use redbase.Btree.Key.{KeyOrder, eq0, lt0, gt0}
use redbase.Btree.Node.{
  Node, get_key, get_addr, largest_key, find_key, remove_at, set_key, get_num_keys,
}
use redbase.Index.Insert.{remove_child}
use redbase.Index.Path.{find_leaf, path_at}
use redbase.Index.{
  Pages, Index, when_index_valid, pin_page, dispose_index_page, fetch_node, set_node, set_height,
  deref, bad_key, no_such_entry, ix_pf,
}
use redbase.Paged.Outcome.{ok, err, fault, Op, ◌>>=◌, ◌>>◌, pure, raise, modify}
use redbase.Record.Rid.{Rid, null_rid, rid_eq}

-- What `DupScanLeftFind` learns from a node: the entry is not in the tree, it is here, or it may be
-- further to the left.
pub data DupScan : Type 0 where
  absent : DupScan
  here : DupScan
  further : DupScan

module _ {K : Type 0} ⦃key : KeyOrder K⦄ where
  -- The inner loop of `DupScanLeftFind`, from entry `i - 1` down.
  unfoldable pub dup_scan : K → Rid → Node K → ℕ → DupScan
  unfolding get_key get_addr rid_eq
  dup_scan x r n zero = further
  dup_scan x r n (suc i) =
      let rest = dup_scan x r n i in
      elim (get_key n i) [
        | none ↦ further
        | some k ↦
            if lt0 (key.cmp x k) || gt0 (key.cmp x k)
            then absent
            else (if rid_eq (get_addr n (pos i)) r then here else rest)
      ]

module _ {K S : Type 0} ⦃key : KeyOrder K⦄ ⦃pf : Pages S⦄ where
  -- The outer loop, over the left neighbours. `fuel` bounds their number: a longer chain than there
  -- are pages is a cycle, on which the code does not end.
  unfoldable pub dup_scan_from : K → Rid → ℕ → Option ℤ → Op (Index K S) (Option ℤ)
  unfolding get_num_keys dup_scan fetch_node
  dup_scan_from x r fuel none s = ok s none
  dup_scan_from x r zero (some p) s = fault
  dup_scan_from x r (suc fuel) (some p) s =
      let n = get_num_keys (s.nodes p) in
      let t = set_node p n s in
      elim (dup_scan x r n n.num_keys) [
        | DupScan.absent ↦ ok t none
        | DupScan.here ↦ ok t (some p)
        | DupScan.further ↦ (fetch_node n.left >>= dup_scan_from x r fuel) t
      ]

  unfoldable pub dup_scan_left_find : ℤ → K → Rid → Op (Index K S) (Option ℤ)
  unfolding fetch_node dup_scan_from
  dup_scan_left_find right x r s =
      (fetch_node (s.nodes right).left >>= dup_scan_from x r (suc (pos_part s.hdr.num_pages))) s

  -- `DeleteEntry` for an identifier that is not in the leaf.
  unfoldable pub delete_elsewhere : K → Rid → ℤ → Op (Index K S) (Unit {0})
  unfolding find_key dup_scan_left_find remove_child
  delete_elsewhere x r leaf s = elim (eqb_ℤ (find_key x null_rid (s.nodes leaf)) (negsuc 0)) [
    | true ↦ err s no_such_entry
    | false ↦
        (do
          other ← dup_scan_left_find leaf x r
          elim other [
            | none ↦ raise no_such_entry
            | some p ↦ λ t. elim (remove_child (find_key x r (t.nodes p)) (t.nodes p)) [
              | none ↦ fault
              | some (n, _) ↦ ok (set_node p n t) tt
            ]
          ])
          s
  ]

  -- The key that takes the place of `x` in the parent of a node: its largest other one. `none`
  -- stands for the `continue` where there is no other.
  unfoldable pub left_key : K → Node K → Op (Index K S) (Option K)
  unfolding largest_key
  left_key x child s = elim (largest_key child) [
    | none ↦ fault
    | some k ↦ ok s (
        if eq0 (key.cmp x k)
        then (if ltb child.num_keys 2 then none else some (child.keys (child.num_keys - 2)))
        else some k)
  ]

  -- The loop that takes the largest key of a leaf out of the path above it, from level `i - 1` up.
  unfoldable pub lower_largest : K → ℕ → Op (Index K S) (Unit {0})
  unfolding find_key left_key set_key
  lower_largest x zero s = ok s tt
  lower_largest x (suc i) s =
      ((do
        p ← path_at i
        (λ t. elim (find_key x null_rid (t.nodes p)) [
          | negsuc _ ↦ ok t tt
          | pos at ↦
              (do
                c ← path_at (suc i)
                k ← (λ u. left_key x (u.nodes c) u)
                modify (λ u. elim k [
                  | none ↦ u
                  | some k' ↦
                      if i == u.hdr.height - 2 || suc at == (u.nodes p).num_keys
                      then set_node p (set_key at k' (u.nodes p)).0 u
                      else u
                ]))
                t
        ]))
          >> lower_largest x i)
        s

  -- The page of a node object, or -1 for none.
  abbrev pub page_or_end : Option ℤ → Index K S → ℤ
  page_or_end none s = negsuc 0
  page_or_end (some p) s = (s.nodes p).page_rid.page

  -- The neighbours of a node that goes are linked with each other.
  unfoldable pub unlink_node : ℤ → Op (Index K S) (Unit {0})
  unfolding fetch_node
  unlink_node node = do
    left ← (λ s. fetch_node (s.nodes node).left s)
    right ← (λ s. fetch_node (s.nodes node).right s)
    modify (λ s. elim left [
      | none ↦ s
      | some l ↦ set_node l (record (s.nodes l) { right = page_or_end right s }) s
    ])
    modify (λ s. elim right [
      | none ↦ s
      | some r ↦ set_node r (record (s.nodes r) { left = page_or_end left s }) s
    ])

  -- `Destroy`, whose code is not looked at, and the page.
  unfoldable pub dispose_node : ℤ → Op (Index K S) (Unit {0})
  unfolding dispose_index_page
  dispose_node node s = elim (dispose_index_page (s.nodes node).page_rid.page s) [
    | ok t _ ↦ ok t tt
    | err t c ↦ if ltb_ℤ c (pos 0) then err t ix_pf else ok t tt
    | fault ↦ fault
  ]

  -- The end of a deletion that has emptied the root: its only child takes its place.
  unfoldable pub shrink_root : ℤ → Op (Index K S) (Unit {0})
  unfolding get_addr fetch_node pin_page dispose_node set_height
  shrink_root node s = elim (s.hdr.height == 1) [
    | true ↦ ok s tt
    | false ↦
        (do
          old ← deref s.root
          child ← (λ t. fetch_node (get_addr (t.nodes old) (pos 0)).page t)
          modify (λ t. record t { root = child })
          p ← deref child
          modify (λ t. record t { hdr = record t.hdr { root_page = (t.nodes p).page_rid.page } })
          (λ t. pin_page t.hdr.root_page t)
          dispose_node node
          modify (λ t. set_height (t.hdr.height - 1) t))
          s
  ]

  -- The parent at `level` loses its entry for a node. The answer is the code; a root that is left
  -- with one key counts as empty.
  unfoldable pub remove_from_parent : ℕ → ℤ → Op (Index K S) ℤ
  unfolding remove_child get_num_keys
  remove_from_parent level parent s = elim (remove_child (s.path_pos level) (s.nodes parent)) [
    | none ↦ fault
    | some (n, rc) ↦
        let single = level == 0 && (get_num_keys n).num_keys == 1 && eqb_ℤ rc (pos 0) in
        ok (set_node parent n s) (if single then negsuc 0 else rc)
  ]

  -- The loop on the underflow of the node at `level`.
  unfoldable pub underflow : ℕ → ℤ → Op (Index K S) (Unit {0})
  unfolding remove_from_parent unlink_node dispose_node shrink_root
  underflow zero node = shrink_root node
  underflow (suc level) node = do
    parent ← path_at level
    rc ← remove_from_parent level parent
    unlink_node node
    dispose_node node
    elim (eqb_ℤ rc (negsuc 0)) [ true ↦ underflow level parent | false ↦ pure tt ]

  -- `DeleteEntry` for an entry of the leaf, from its position on.
  unfoldable pub delete_at : K → ℤ → ℕ → Op (Index K S) (Unit {0})
  unfolding get_num_keys lower_largest remove_at underflow
  delete_at x leaf at s =
      let t = set_node leaf (get_num_keys (s.nodes leaf)) s in
      (do
        (λ u.
            if suc at == (u.nodes leaf).num_keys
            then lower_largest x (u.hdr.height - 1) u
            else ok u tt)
        rc ← (λ u. let (n, rc) = remove_at at (u.nodes leaf) in ok (set_node leaf n u) rc)
        (λ u. elim (eqb_ℤ rc (negsuc 0)) [
          | true ↦ underflow (u.hdr.height - 1) leaf u
          | false ↦ ok u tt
        ]))
        t

  unfoldable pub delete_entry : Option K → Rid → Op (Index K S) (Unit {0})
  delete_entry none r = raise bad_key
  delete_entry (some x) r = when_index_valid do
    found ← find_leaf x
    leaf ← deref found
    (λ s. elim (find_key x r (s.nodes leaf)) [
      | negsuc _ ↦ delete_elsewhere x r leaf s
      | pos at ↦ delete_at x leaf at s
    ])
