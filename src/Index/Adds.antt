-- ===== src/Index/Adds.antt =====
-- `InsertEntry` of src/ix_indexhandle.cc refines the insertion into a set of entries.
use redbase.Base.{
  ℕ, ◌+◌, ◌<◌, ◌==◌, ◌||◌, ◌&&◌, ◌≡◌, ◌≢◌, refl, ap, ◌∙◌, ℤ, pos, negsuc, inl, inr, ◌⊎◌, arith,
  true, false, Bool, some, eqb_ℤ, if◌then◌else◌,
}
use redbase.Btree.Find.{find_key-Finds, Finds}
use redbase.Btree.Insert.{insert_lem}
use redbase.Btree.Key.{KeyOrder, eq0, gt0}
use redbase.Btree.Node.{Node, insert, find_key}
use redbase.Index.Apart.{IsApart}
use redbase.Index.Child.{leaf_for_lem, leaf_for-Holds}
use redbase.Index.Entry.{IsGrown-Under, IsGrown-Above, test-Above, test-Under, stored}
use redbase.Index.Insert.{note_largest, insert_at_leaf, insert_entry}
use redbase.Index.Insertion.{note_largest_lem, insert_noted_lem, insert_at_leaf_lem}
use redbase.Index.Leaf.{insert-IsLeaf}
use redbase.Index.Path.{find_leaf}
use redbase.Index.Plus.{Plus}
use redbase.Index.Raise.{raised}
use redbase.Index.Reach.{IsIndex, IsWay, find_leaf-reaches}
use redbase.Index.Requests.{Serves}
use redbase.Index.Rise.{IsTop, LeafPlus}
use redbase.Index.Route.{IsGrown}
use redbase.Index.Tree.{IsTree, Holds, leaf_for}
use redbase.Index.{Pages, Index, is_valid, when_index_valid, deref, set_node, entry_exists}
use redbase.Paged.Outcome.{ok, err, ◌>>=◌, ◌>>◌}
use redbase.Record.Rid.{Rid, null_rid, rid_eq, rid_eq_iff}

-- The well-formed index: an open one, whose nodes lie on pages of their own, with the largest key.
pub record IsBtree {K S : Type 0} ⦃key : KeyOrder K⦄ (InUse : ℤ → Type 0) (Good : S → Type 0)
    (s : Index K S) (rounds : ℕ) (root : ℤ) : Type 0 where
  pub index : IsIndex InUse Good s rounds root
  pub apart : IsApart s.nodes rounds root
  pub top : IsTop s.tree_largest s.nodes rounds root

and_or : (a b c : Bool) → (a && (b || c)) ≡ true → (a ≡ true) × ((b ≡ true) ⊎ (c ≡ true))
and_or true true c h = (refl, inl refl)
and_or true false c h = (refl, inr h)
and_or false b c h = absurd (ground (arith, h))

module _ {K S : Type 0} ⦃key : KeyOrder K⦄ ⦃pf : Pages S⦄ {InUse : ℤ → Type 0}
    {Good : S → Type 0} where
  grown_index :
      (x largest : K) (r : Rid) (s : Index K S) (nodes' : ℤ → Node K) (rounds : ℕ) (root : ℤ)
      → IsIndex InUse Good s rounds root
      → IsGrown InUse x r s.nodes nodes' rounds root
      → IsTop largest nodes' rounds root
      → IsBtree InUse Good (record s { nodes = nodes'; tree_largest = largest }) rounds root
  unfolding is_valid
  grown_index x largest r s nodes' rounds root h g top = record {
    index = record {
      valid = h.valid;
      good = h.good;
      at_root = h.at_root;
      first = h.first;
      tall = h.tall;
      tree = g.tree;
    };
    apart = g.apart;
    top = top;
  }

  -- What the insertion into the leaf comes to, by the code's test on the largest key.
  note_by :
      (x : K) (r : Rid) (s : Index K S) (rounds : ℕ) (root : ℤ) (b : Bool)
      → IsBtree InUse Good s rounds root
      → IsWay x s.nodes 0 rounds root s.path s.path_pos
      → LeafPlus InUse x s.nodes r
          (leaf_for x s.nodes rounds root)
          (insert x r (s.nodes (leaf_for x s.nodes rounds root))).0
      → ((s.nodes (leaf_for x s.nodes rounds root)).num_keys == 0 || gt0 (key.cmp x s.tree_largest))
        ≡ b
      → (t : Index K S) × (note_largest x b (
            set_node
              (leaf_for x s.nodes rounds root)
              (insert x r (s.nodes (leaf_for x s.nodes rounds root))).0
              s)
          ≡ ok t tt)
        × IsBtree InUse Good t rounds root
        × Plus x r (Holds s.nodes rounds root) (Holds t.nodes rounds root)
  unfolding note_largest
  note_by x r s rounds root false h way leaf b =
      let tree = h.index.tree in
      let under = test-Under InUse x s.tree_largest s.nodes rounds root tree h.top b in
      let (g, top) =
        IsGrown-Under InUse x s.tree_largest r s.nodes rounds root tree h.apart h.top
          (insert x r (s.nodes (leaf_for x s.nodes rounds root))).0 leaf under in
      (
        record s {
          nodes =
              stored InUse x s.tree_largest r s.nodes rounds root tree h.apart h.top
                (insert x r (s.nodes (leaf_for x s.nodes rounds root))).0 leaf;
        },
        refl,
        grown_index x s.tree_largest r s _ rounds root h.index g top,
        g.plus,
      )
  note_by x r s rounds root true h way leaf b =
      let tree = h.index.tree in
      let above = test-Above InUse x s.tree_largest s.nodes rounds root tree h.top b in
      let m = (insert x r (s.nodes (leaf_for x s.nodes rounds root))).0 in
      let (g, top) =
        IsGrown-Above InUse x s.tree_largest r s.nodes rounds root tree h.apart h.top m leaf
          above in
      (
        record s {
          nodes =
              raised InUse s.tree_largest x s.nodes rounds root
                (stored InUse x s.tree_largest r s.nodes rounds root tree h.apart h.top m leaf);
          tree_largest = x;
        },
        note_largest_lem InUse x s.nodes rounds root (set_node (leaf_for x s.nodes rounds root) m s)
            (omega (arith, h.index.tall))
            (λ k l. ap s.path (omega arith) ∙ way.stops k (omega arith)),
        grown_index x x r s _ rounds root h.index g top,
        g.plus,
      )

module _ {K S : Type 0} ⦃key : KeyOrder K⦄ ⦃pf : Pages S⦄ {InUse : ℤ → Type 0}
    {Good : ℕ → S → Type 0} (serves : Serves InUse Good) where
  pub insert_entry_at :
      (x : K) (r : Rid) (leaf : ℤ) (s t : Index K S)
      → is_valid s ≡ pos 0
      → find_leaf x s ≡ ok t (some leaf)
      → insert_entry (some x) r s ≡ (
          if eqb_ℤ (find_key x r (t.nodes leaf)) (negsuc 0)
          then insert_at_leaf x r leaf t
          else err t entry_exists)
  unfolding insert_entry
  insert_entry_at x r leaf s t valid found =
      rw (valid, insert_entry, when_index_valid, found, ◌>>◌, ◌>>=◌, deref) refl

  -- A search for an identifier of a record ends with an entry that has it.
  find_key-absent :
      (x : K) (r : Rid) (n : Node K) (z : ℤ)
      → r ≢ null_rid
      → ((j : ℕ) → j < n.num_keys → n.rids j ≡ r → eq0 (key.cmp x (n.keys j)) ≡ true → ⊥)
      → Finds x r n n.num_keys z
      → z ≡ negsuc 0
  find_key-absent x r n (negsuc c) named missing (e, _) = ap negsuc e
  find_key-absent x r n (pos i) named missing (l, hit, _) =
      let (same, case) =
        and_or (eq0 (key.cmp x (n.keys i))) (rid_eq r null_rid) (rid_eq (n.rids i) r) hit in
      elim case [
        | inl e ↦ absurd (named ((rid_eq_iff r null_rid).0 e))
        | inr e ↦ absurd (missing i l ((rid_eq_iff (n.rids i) r).0 e) same)
      ]

  -- On a well-formed index whose leaf for the key has room, with a paged file that can pin a page for
  -- each level, `InsertEntry` of an entry that is not in the tree, whose identifier is not the null
  -- one, returns 0, leaves a well-formed index of the same height, and the leaves hold what they
  -- held before and the new entry.
  pub insert_entry-adds :
      (n : ℕ) (x : K) (r : Rid) (s : Index K S) (rounds : ℕ) (root : ℤ)
      → IsBtree InUse (Good (rounds + n)) s rounds root
      → r ≢ null_rid
      → ((k : K) → Holds s.nodes rounds root k r → eq0 (key.cmp x k) ≡ true → ⊥)
      → (s.nodes (leaf_for x s.nodes rounds root)).num_keys
        < (s.nodes (leaf_for x s.nodes rounds root)).order
      → (t : Index K S) × (insert_entry (some x) r s ≡ ok t tt)
        × IsBtree InUse (Good n) t rounds root
        × Plus x r (Holds s.nodes rounds root) (Holds t.nodes rounds root)
  unfolding IsTree Holds
  insert_entry-adds n x r s rounds root h named missing room =
      let (q, path, at, found, way, _, _, after) =
        find_leaf-reaches serves n x s rounds root h.index in
      let s' : Index K S = record s { pages = q; path = path; path_pos = at } in
      let h' : IsBtree InUse (Good n) s' rounds root = record {
        index = after;
        apart = h.apart;
        top = h.top;
      } in
      let leaf = leaf_for x s.nodes rounds root in
      let m = s.nodes leaf in
      let (usable, is_leaf) = (leaf_for_lem InUse s.nodes x rounds root h.index.tree).0 in
      let (_, _, _, done) = insert_lem x r m usable.valid room in
      let absent =
        find_key-absent x r m (find_key x r m) named
          (λ j l e same.
            missing (m.keys j)
              (leaf_for-Holds InUse s.nodes x rounds root (m.keys j) r h.index.tree (j, l, refl, e))
              same)
          (find_key-Finds x r m) in
      let (t, noted, b, plus) =
        note_by x r s' rounds root _ h' way (insert-IsLeaf x r m named is_leaf usable.valid room)
          refl in
      (
        t,
        insert_entry_at x r leaf s s' h.index.valid found
            ∙ rw (absent) (
                insert_at_leaf_lem x r leaf s' usable.valid
                ∙ insert_noted_lem x r leaf _ s' t done noted),
        b,
        plus,
      )
