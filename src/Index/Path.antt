-- ===== src/Index/Path.antt =====
-- The searches for a leaf of src/ix_indexhandle.cc: `FindSmallestLeaf`, `FindLargestLeaf`,
-- `FindLeaf`, `FindLeafForceRight`, and `Search`. They leave the nodes from the root to the leaf in
-- `path` and pin their pages.
use redbase.Base.{
  ℕ, zero, suc, ◌-◌, Bool, true, false, not, ◌&&◌, Option, none, some, if◌then◌else◌, update, ◌==◌,
  ℤ, pos, negsuc, ◌+ℤ◌, eqb_ℤ, sub_ℕ,
}
use redbase.Btree.Key.{KeyOrder, eq0}
use redbase.Btree.Node.{
  Node, get_addr, largest_key, find_key, find_addr, find_key_position, find_addr_at_position,
  get_key,
}
use redbase.Index.{
  Pages, Index, is_valid, when_index_valid, pin_page, un_pin, fetch_node, ignoring, if_below_0,
  or_null, deref, bad_ix_page, bad_key, key_not_found,
}
use redbase.Paged.Outcome.{ok, err, fault, Op, ◌>>=◌, ◌>>◌, pure, raise, modify}
use redbase.Record.Rid.{Rid, null_rid, rid_eq}

module _ {K S : Type 0} ⦃pf : Pages S⦄ where
  abbrev pub set_path : ℕ → Option ℤ → Index K S → Index K S
  set_path i p s = record s { path = update s.path i p }

  -- `path[i]`, read through.
  abbrev pub path_at : ℕ → Op (Index K S) ℤ
  path_at i s = deref (s.path i) s

  -- The old node at a level of the path is unpinned.
  unfoldable pub release_level : ℕ → Op (Index K S) (Unit {0})
  unfolding un_pin
  release_level i s = elim (s.path i) [
    | none ↦ ok s tt
    | some p ↦ (if_below_0 (un_pin p) >> modify (set_path i none)) s
  ]

  -- The same, where the code is not looked at.
  unfoldable pub release_any : ℕ → Op (Index K S) (Unit {0})
  unfolding un_pin
  release_any i s = elim (s.path i) [
    | none ↦ ok s tt
    | some p ↦ (ignoring (un_pin p) >> modify (set_path i none)) s
  ]

  -- The new node of level `i`, with its position in the parent.
  unfoldable pub enter : ℕ → ℤ → ℤ → Op (Index K S) (Unit {0})
  unfolding fetch_node pin_page
  enter i page at = do
    node ← fetch_node page
    modify (set_path i node)
    p ← deref node
    pin_page p
    modify (λ s. record s { path_pos = update s.path_pos (i - 1) at })

  -- The loop over the levels below the root, with its rounds counted down.
  unfoldable pub descend : (ℕ → Op (Index K S) (Unit {0})) → ℕ → ℕ → Op (Index K S) (Unit {0})
  descend step zero i s = ok s tt
  descend step (suc rounds) i s = (step i >> descend step rounds (suc i)) s

  -- `path[hdr.height-1]`, for the height.
  unfoldable pub last_level : ℕ → Op (Index K S) ℤ
  last_level zero s = fault
  last_level (suc i) s = deref (s.path i) s

  -- What the three searches have in common, from their test of the height on and from their test of
  -- the root on: `step` is the body of the loop.
  unfoldable pub find_level : (ℕ → Op (Index K S) (Unit {0})) → ℤ → Bool → Op (Index K S) ℤ
  unfolding descend last_level
  find_level step r true s = ok (set_path 0 (some r) s) r
  find_level step r false s =
      (descend step (s.hdr.height - 1) 1 >> (λ t. last_level t.hdr.height t)) s

  unfoldable pub find_at_root : (ℕ → Op (Index K S) (Unit {0})) → Option ℤ → Op (Index K S) ℤ
  unfolding find_level
  find_at_root step none s = err s bad_ix_page
  find_at_root step (some r) s = find_level step r (s.hdr.height == 1) s

  -- The whole of it; the result is null for an error.
  unfoldable pub find_by : (ℕ → Op (Index K S) (Unit {0})) → Op (Index K S) (Option ℤ)
  unfolding is_valid find_at_root
  find_by step = or_null (when_index_valid (λ s. find_at_root step s.root s))

  -- The bodies of `FindSmallestLeaf` and `FindLargestLeaf`, which differ in the child they take.
  unfoldable pub to_child : (Node K → ℤ) → ℕ → Op (Index K S) (Unit {0})
  unfolding get_addr release_level enter
  to_child which i = do
    p ← path_at (i - 1)
    (λ s.
        let r = get_addr (s.nodes p) (which (s.nodes p)) in
        if eqb_ℤ r.page (negsuc 0)
        then err s bad_ix_page
        else ((release_level i >> enter i r.page (pos 0)) s))

  unfoldable pub find_smallest_leaf : Op (Index K S) (Option ℤ)
  unfolding find_by to_child
  find_smallest_leaf = find_by (to_child (λ n. pos 0))

  unfoldable pub find_largest_leaf : Op (Index K S) (Option ℤ)
  unfolding find_by to_child
  find_largest_leaf = find_by (to_child (λ n. sub_ℕ n.num_keys 1))

module _ {K : Type 0} ⦃key : KeyOrder K⦄ where
  -- The child that `FindLeaf` takes for a key, and its position: the one of the largest key where
  -- the key is larger than all.
  unfoldable pub child_for : K → Node K → ℤ × ℤ
  unfolding find_addr_at_position find_key_position largest_key find_addr find_key
  child_for x n =
      let r = find_addr_at_position x n in
      if eqb_ℤ r.page (negsuc 0)
      then elim (largest_key n) [
        | none ↦ (negsuc 0, negsuc 0)
        | some k ↦ ((find_addr k n).page, find_key k null_rid n)
      ]
      else (r.page, find_key_position x n)

module _ {K S : Type 0} ⦃key : KeyOrder K⦄ ⦃pf : Pages S⦄ where
  unfoldable pub leaf_step : K → ℕ → Op (Index K S) (Unit {0})
  unfolding child_for release_any enter
  leaf_step x i = do
    p ← path_at (i - 1)
    (λ s. let (page, at) = child_for x (s.nodes p) in (release_any i >> enter i page at) s)

  unfoldable pub find_leaf : K → Op (Index K S) (Option ℤ)
  unfolding find_by leaf_step
  find_leaf x = find_by (leaf_step x)

  -- `Search`
  unfoldable pub search : Option K → Op (Index K S) Rid
  unfolding find_addr rid_eq
  search given = when_index_valid (elim given [
    | none ↦ raise bad_key
    | some x ↦ do
      leaf ← find_leaf x
      elim leaf [
        | none ↦ raise bad_key
        | some p ↦ λ s.
            let r = find_addr x (s.nodes p) in
            if rid_eq r null_rid then err s key_not_found else ok s r
      ]
  ])

  -- `FindLeafForceRight` from the page of the right neighbour on: the neighbour takes the place of
  -- the leaf when its first key is the same. The position in the parent is at level `height - 2`.
  unfoldable pub go_right : K → ℤ → ℤ → Op (Index K S) (Unit {0})
  unfolding get_key un_pin fetch_node ◌+ℤ◌
  go_right x leaf right s = elim (get_key (s.nodes right) 0) [
    | none ↦ fault
    | some k ↦ elim (eq0 (key.cmp k x)) [
      | false ↦ ok s tt
      | true ↦
          (do
            if_below_0 (un_pin leaf)
            node ← fetch_node (s.nodes right).page_rid.page
            modify (λ t. set_path (t.hdr.height - 1) node t)
            (λ t. elim (t.hdr.height == 1) [
              | true ↦ fault
              | false ↦
                  ok
                    (record t {
                      path_pos =
                          update t.path_pos (t.hdr.height - 2)
                            (t.path_pos (t.hdr.height - 2) +ℤ pos 1);
                    })
                    tt
            ]))
            s
    ]
  ]

  unfoldable pub find_leaf_force_right : K → Op (Index K S) (Option ℤ)
  unfolding find_leaf find_key fetch_node go_right
  find_leaf_force_right x = do
    ignoring (find_leaf x)
    p ← (λ s. path_at (s.hdr.height - 1) s)
    went ← or_null (λ s.
        let n = s.nodes p in
        let at = find_key x null_rid n in
        if not (eqb_ℤ n.right (negsuc 0))
          && not (eqb_ℤ at (negsuc 0))
          && eqb_ℤ at (sub_ℕ n.num_keys 1)
        then ((fetch_node n.right >>= λ r. elim r [ none ↦ pure tt | some q ↦ go_right x p q ]) s)
        else ok s tt)
    (λ s. ok s (elim went [ none ↦ none | some _ ↦ s.path (s.hdr.height - 1) ]))
