-- ===== src/Index/Search.antt =====
-- `Search` of src/ix_indexhandle.cc against the set of entries that the tree holds.
use redbase.Base.{
  ℕ, ◌+◌, ◌≡◌, refl, ap, some, true, false, Bool, ℤ, pos, negsuc, arith, if◌then◌else◌, inl, inr,
  Bool-cases,
}
use redbase.Btree.Find.{find_key-Finds, Finds, matches, matches-null_false}
use redbase.Btree.Key.{KeyOrder, eq0}
use redbase.Btree.Node.{Node, find_key, find_addr, rid_at}
use redbase.Index.Child.{leaf_for_lem, leaf_for-Holds}
use redbase.Index.Path.{search}
use redbase.Index.Reach.{IsIndex, find_leaf-reaches}
use redbase.Index.Requests.{Serves}
use redbase.Index.Tree.{IsTree, IsLeaf, Holds, HasKey, leaf_for}
use redbase.Index.{Pages, Index, when_index_valid, key_not_found}
use redbase.Paged.Outcome.{Outcome, ok, err, fault, ◌>>=◌}
use redbase.Record.Rid.{Rid, null_rid, rid_eq, rid_eq_iff}

module _ {K : Type 0} ⦃key : KeyOrder K⦄ where
  -- What `Search` may answer for a key: an entry of the tree, or `IX_KEYNOTFOUND` where it has none.
  abbrev pub Answers : {S : Type 0} → K → (ℤ → Node K) → ℕ → ℤ → Outcome S Rid → Type 0
  Answers x nodes rounds root (ok s r) =
      (k : K) × Holds nodes rounds root k r × (eq0 (key.cmp x k) ≡ true)
  Answers x nodes rounds root (err s c) = (c ≡ key_not_found) × ¬ HasKey x nodes rounds root
  Answers x nodes rounds root fault = ⊥

  -- What `FindAddr` finds in a leaf.
  abbrev pub InLeaf : K → (ℤ → Node K) → ℤ → Rid → Bool → Type 0
  InLeaf x nodes p r true = ¬ HasKey x nodes 0 p
  InLeaf x nodes p r false = (k : K) × Holds nodes 0 p k r × (eq0 (key.cmp x k) ≡ true)

  matches-null_true :
      (x : K) (n : Node K) (j : ℕ)
      → matches x null_rid n j ≡ true
      → eq0 (key.cmp x (n.keys j)) ≡ true
  matches-null_true x n j h = ground arith

  find_addr_by :
      (x : K) (nodes : ℤ → Node K) (p z : ℤ)
      → IsLeaf (nodes p)
      → Finds x null_rid (nodes p) (nodes p).num_keys z
      → InLeaf x nodes p (rid_at (nodes p) z) (rid_eq (rid_at (nodes p) z) null_rid)
  unfolding Holds rid_at rid_eq
  find_addr_by x nodes p (negsuc c) leaf (_, missing) = λ (k, r, (j, l, e, _), same).
      absurd
        (cc (matches-null_false x (nodes p) j (missing j l), ap (λ c. eq0 (key.cmp x c)) e, same))
  find_addr_by x nodes p (pos i) leaf (l, hit, _) =
      elim (Bool-cases (rid_eq ((nodes p).rids i) null_rid)) [
        | inl e ↦ absurd (leaf.real i l ((rid_eq_iff _ _).0 e))
        | inr e ↦ rw (e) ((nodes p).keys i, (i, l, refl, refl), matches-null_true x (nodes p) i hit)
      ]

  search_leaf :
      (x : K) (nodes : ℤ → Node K) (p : ℤ)
      → IsLeaf (nodes p)
      → InLeaf x nodes p (find_addr x (nodes p)) (rid_eq (find_addr x (nodes p)) null_rid)
  unfolding find_addr
  search_leaf x nodes p leaf =
      find_addr_by x nodes p (find_key x null_rid (nodes p)) leaf
        (find_key-Finds x null_rid (nodes p))

module _ {K S : Type 0} ⦃key : KeyOrder K⦄ ⦃pf : Pages S⦄ {InUse : ℤ → Type 0}
    {Good : ℕ → S → Type 0} (serves : Serves InUse Good) where
  answer_by :
      (x : K) (s : Index K S) (rounds : ℕ) (root : ℤ) (r : Rid) (b : Bool)
      → IsTree InUse s.nodes rounds root
      → (t : Index K S) → InLeaf x s.nodes (leaf_for x s.nodes rounds root) r b
      → Answers x s.nodes rounds root (if b then err t key_not_found else ok t r)
  answer_by x s rounds root r true tree t missing =
      (refl, λ h. missing ((leaf_for_lem InUse s.nodes x rounds root tree).1 h))
  answer_by x s rounds root r false tree t (k, held, same) =
      (k, leaf_for-Holds InUse s.nodes x rounds root k r tree held, same)

  -- On an open index, with a paged file that serves its pages and can pin one for each level, `Search`
  -- refines the lookup in the
  -- set of entries that the leaves hold: it answers with the identifier of an entry that has an equal
  -- key, and with `IX_KEYNOTFOUND` exactly when no leaf of the tree has one.
  pub search-Answers :
      (n : ℕ) (x : K) (s : Index K S) (rounds : ℕ) (root : ℤ)
      → IsIndex InUse (Good (rounds + n)) s rounds root
      → Answers x s.nodes rounds root (search (some x) s)
  unfolding search IsTree
  search-Answers n x s rounds root h =
      let (q, path, at, found, way, _, _, after) = find_leaf-reaches serves n x s rounds root h in
      let leaf = (leaf_for_lem InUse s.nodes x rounds root h.tree).0.1 in
      rw (h.valid, search, when_index_valid, found, ◌>>=◌)
        (answer_by x s rounds root _ _ h.tree _
          (search_leaf x s.nodes (leaf_for x s.nodes rounds root) leaf))
