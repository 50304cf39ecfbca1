-- ===== src/Index/Insertion.antt =====
-- `InsertEntry` of src/ix_indexhandle.cc where the leaf has room, and where it has the entry.
use redbase.Base.{
  ℕ, zero, suc, ◌+◌, ◌-◌, ◌<◌, ◌==◌, ◌||◌, ◌≡◌, refl, ap, ◌∙◌, ℤ, pos, arith, true, Bool, some,
}
use redbase.Btree.Insert.{IsValid, get_num_keys_valid}
use redbase.Btree.Key.{KeyOrder, gt0}
use redbase.Btree.Node.{Node, insert}
use redbase.Index.Insert.{insert_into, raise_largest, note_largest, insert_noted, insert_at_leaf}
use redbase.Index.Path.{child_for, path_at}
use redbase.Index.Raise.{raised}
use redbase.Index.Requests.{put_node-same}
use redbase.Index.Tree.{leaf_for}
use redbase.Index.{Pages, Index, deref, set_node}
use redbase.Paged.Outcome.{ok, ◌>>=◌, ◌>>◌}
use redbase.Record.Rid.{Rid}

module _ {K S : Type 0} ⦃key : KeyOrder K⦄ ⦃pf : Pages S⦄ where
  raise_largest_lem :
      (InUse : ℤ → Type 0) (old x : K) (nodes : ℤ → Node K) (rounds i : ℕ) (p : ℤ) (s : Index K S)
      → ((k : ℕ) → k < rounds → s.path (i + k) ≡ some (leaf_for x nodes k p))
      → raise_largest old x rounds i s
        ≡ ok (record s { nodes = raised InUse old x nodes rounds p s.nodes }) tt
  unfolding raise_largest raised leaf_for
  raise_largest_lem InUse old x nodes zero i p s way = refl
  raise_largest_lem InUse old x nodes (suc rounds) i p s way =
      let here : s.path i ≡ some p = ap s.path (omega arith) ∙ way 0 (omega arith) in
      rw (here, raise_largest, ◌>>◌, ◌>>=◌, path_at, deref)
        (raise_largest_lem InUse old x nodes rounds (suc i) (child_for x (nodes p)).0 _
          (λ k l. ap s.path (omega arith) ∙ way (suc k) (omega arith)))

  pub note_largest_lem :
      (InUse : ℤ → Type 0) (x : K) (nodes : ℤ → Node K) (rounds : ℕ) (p : ℤ) (s : Index K S)
      → s.hdr.height - 1 ≡ rounds
      → ((k : ℕ) → k < rounds → s.path k ≡ some (leaf_for x nodes k p))
      → note_largest x true s
        ≡ ok
            (record s {
              nodes = raised InUse s.tree_largest x nodes rounds p s.nodes;
              tree_largest = x;
            })
            tt
  unfolding note_largest
  note_largest_lem InUse x nodes rounds p s tall way =
      rw
        (
          tall,
          note_largest,
          raise_largest_lem InUse s.tree_largest x nodes rounds 0 p s
              (λ k l. ap s.path (omega arith) ∙ way k l),
          ◌>>◌,
          ◌>>=◌,
        )
        refl

  pub insert_noted_lem :
      (x : K) (r : Rid) (leaf : ℤ) (b : Bool) (s t : Index K S)
      → (insert x r (s.nodes leaf)).1 ≡ pos 0
      → note_largest x b (set_node leaf (insert x r (s.nodes leaf)).0 s) ≡ ok t tt
      → insert_noted x r leaf b s ≡ ok t tt
  unfolding insert_noted insert_into
  insert_noted_lem x r leaf b s t done noted = rw (insert_noted, ◌>>◌, ◌>>=◌, noted, done) refl

  pub insert_at_leaf_lem :
      (x : K) (r : Rid) (leaf : ℤ) (s : Index K S)
      → IsValid (s.nodes leaf)
      → insert_at_leaf x r leaf s
        ≡ insert_noted x r leaf ((s.nodes leaf).num_keys == 0 || gt0 (key.cmp x s.tree_largest)) s
  unfolding insert_at_leaf
  insert_at_leaf_lem x r leaf s valid =
      ap
        (λ n.
          insert_noted x r leaf (n.num_keys == 0 || gt0 (key.cmp x s.tree_largest))
            (set_node leaf n s))
        (get_num_keys_valid (s.nodes leaf) valid)
      ∙ ap
          (λ nodes.
            insert_noted x r leaf ((s.nodes leaf).num_keys == 0 || gt0 (key.cmp x s.tree_largest))
              (record s { nodes = nodes }))
          (put_node-same leaf s.nodes)
