-- ===== src/Index/Exists.antt =====
-- `InsertEntry` of src/ix_indexhandle.cc for an entry that is there, and a search after an insertion.
use redbase.Base.{
  ℕ, ◌+◌, ◌<◌, ◌≡◌, ◌≢◌, refl, ap, ◌∙◌, ℤ, pos, negsuc, inr, arith, true, false, some, Option,
  eqb_ℤ,
}
use redbase.Btree.Find.{find_key-Finds, Finds}
use redbase.Btree.Key.{KeyOrder, eq0}
use redbase.Btree.Node.{Node, find_key}
use redbase.Index.Insert.{insert_entry}
use redbase.Index.Path.{search}
use redbase.Index.Reach.{IsIndex, find_leaf-reaches}
use redbase.Index.Requests.{Serves}
use redbase.Index.Tree.{Holds, leaf_for}
use redbase.Index.Search.{Answers, search-Answers}
use redbase.Index.{Pages, Index, entry_exists}
use redbase.Paged.Outcome.{Outcome, ok, err, fault}
use redbase.Record.Rid.{Rid, null_rid, rid_eq_iff}
use redbase.Index.Adds.{IsBtree, insert_entry_at, insert_entry-adds}

module _ {K S : Type 0} ⦃key : KeyOrder K⦄ ⦃pf : Pages S⦄ {InUse : ℤ → Type 0}
    {Good : ℕ → S → Type 0} (serves : Serves InUse Good) where
  find_key-present :
      (x : K) (r : Rid) (n : Node K) (z : ℤ) (j : ℕ)
      → j < n.num_keys
      → eq0 (key.cmp x (n.keys j)) ≡ true
      → n.rids j ≡ r
      → Finds x r n n.num_keys z
      → eqb_ℤ z (negsuc 0) ≡ false
  find_key-present x r n (pos i) j l same e found = ground arith
  find_key-present x r n (negsuc c) j l same e (_, missing) =
      absurd (ground (arith, missing j l, same, (rid_eq_iff (n.rids j) r).1 e))

  -- On an open index, where the leaf for the key holds an entry with an equal key and the same identifier,
  -- `InsertEntry` returns `IX_ENTRYEXISTS`, changes no node and no header and leaves an open index. The
  -- paged file can pin a page for each level.
  pub insert_entry-exists :
      (n : ℕ) (x : K) (r : Rid) (s : Index K S) (rounds : ℕ) (root : ℤ) (k : K)
      → IsIndex InUse (Good (rounds + n)) s rounds root
      → Holds s.nodes 0 (leaf_for x s.nodes rounds root) k r
      → eq0 (key.cmp x k) ≡ true
      → (q : S) × (path : ℕ → Option ℤ) × (at : ℕ → ℤ) × (insert_entry (some x) r s
          ≡ err (record s { pages = q; path = path; path_pos = at }) entry_exists)
        × IsIndex InUse (Good n) (record s { pages = q; path = path; path_pos = at }) rounds root
  unfolding Holds
  insert_entry-exists n x r s rounds root k h (j, l, e, e') same =
      let (q, path, at, found, way, _, _, after) = find_leaf-reaches serves n x s rounds root h in
      let leaf = leaf_for x s.nodes rounds root in
      let m = s.nodes leaf in
      let present =
        find_key-present x r m (find_key x r m) j l (ap (λ a. eq0 (key.cmp x a)) e ∙ same) e'
          (find_key-Finds x r m) in
      (
        q,
        path,
        at,
        insert_entry_at serves x r leaf s (record s { pages = q; path = path; path_pos = at })
              h.valid found
            ∙ rw (present) refl,
        after,
      )

  answer_ok :
      (x : K) (r : Rid) (s : Index K S) (rounds : ℕ) (root : ℤ) (o : Outcome (Index K S) Rid)
      → Answers x s.nodes rounds root o
      → Holds s.nodes rounds root x r
      → (u : Index K S) × (k : K) × (r' : Rid) × (o ≡ ok u r')
        × Holds s.nodes rounds root k r'
        × (eq0 (key.cmp x k) ≡ true)
  answer_ok x r s rounds root (ok u r') (k, held, same) new = (u, k, r', refl, held, same)
  answer_ok x r s rounds root (err u c) (_, missing) new =
      absurd (missing (x, r, new, key.cmp_refl x))
  answer_ok x r s rounds root fault broken new = absurd broken

  -- On a well-formed index whose leaf for the key has room, with a paged file that can pin two pages for each
  -- level, an entry that is not in the tree and whose identifier is not the null one is inserted and then found:
  -- `InsertEntry` returns 0, and in the index that it leaves `Search` for the key returns 0 and the identifier of
  -- an entry of its tree with an equal key.
  pub search-insert_entry :
      (n : ℕ) (x : K) (r : Rid) (s : Index K S) (rounds : ℕ) (root : ℤ)
      → IsBtree InUse (Good (rounds + (rounds + n))) s rounds root
      → r ≢ null_rid
      → ((k : K) → Holds s.nodes rounds root k r → eq0 (key.cmp x k) ≡ true → ⊥)
      → (s.nodes (leaf_for x s.nodes rounds root)).num_keys
        < (s.nodes (leaf_for x s.nodes rounds root)).order
      → (t u : Index K S) × (k : K) × (r' : Rid) × (insert_entry (some x) r s ≡ ok t tt)
        × (search (some x) t ≡ ok u r')
        × Holds t.nodes rounds root k r'
        × (eq0 (key.cmp x k) ≡ true)
  search-insert_entry n x r s rounds root h named missing room =
      let (t, done, b, plus) =
        insert_entry-adds serves (rounds + n) x r s rounds root h named missing room in
      let (u, k, r', answered, held, same) =
        answer_ok x r t rounds root _ (search-Answers serves n x t rounds root b.index)
          ((plus x r).1 (inr (refl, refl))) in
      (t, u, k, r', done, answered, held, same)
