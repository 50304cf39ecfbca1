-- ===== src/Index/Reach.antt =====
-- `FindLeaf` of src/ix_indexhandle.cc on a tree: it arrives at the leaf for the key and leaves the
-- way to it in `path` and `pathP`.
use redbase.Base.{
  ℕ, zero, suc, ◌+◌, ◌-◌, ◌≤◌, ◌<◌, ◌≡◌, refl, ap, ◌∙◌, sym, subst, Option, some, update,
  update_self, Bool, true, false, ℤ, pos, arith, ◌==◌,
}
use redbase.Btree.Key.{KeyOrder}
use redbase.Btree.Node.{Node}
use redbase.Index.Child.{child_for_lem, root-IsUsable, leaf_for_lem, leaf_for-Holds}
use redbase.Index.Path.{
  find_leaf, find_by, find_at_root, find_level, last_level, descend, leaf_step, child_for,
}
use redbase.Index.Requests.{Serves, leaf_step_lem}
use redbase.Index.Tree.{IsTree, leaf_for, kid, HasKey, Holds}
use redbase.Index.{Pages, Index, is_valid, when_index_valid, or_null, deref}
use redbase.Record.Rid.{Rid}
use redbase.Paged.Outcome.{ok, Op, ◌>>=◌, ◌>>◌}

module _ {K : Type 0} ⦃key : KeyOrder K⦄ where
  -- From level `i` on, `path` holds the nodes from page `p` to the leaf for a key, and `pathP` the
  -- positions of the children that were taken.
  pub record IsWay (x : K) (nodes : ℤ → Node K) (i rounds : ℕ) (p : ℤ) (path : ℕ → Option ℤ)
      (at : ℕ → ℤ) : Type 0 where
    pub stops : (k : ℕ) → k ≤ rounds → path (i + k) ≡ some (leaf_for x nodes k p)
    pub turns : (k : ℕ) → k < rounds → at (i + k) ≡ (child_for x (nodes (leaf_for x nodes k p))).1

  first_stop :
      (x : K) (nodes : ℤ → Node K) (i rounds : ℕ) (p child at : ℤ) (path : ℕ → Option ℤ)
      (ats : ℕ → ℤ)
      → child_for x (nodes p) ≡ (child, at)
      → path i ≡ some p
      → IsWay x nodes (suc i) rounds child path ats
      → (k : ℕ) → k ≤ suc rounds
      → path (i + k) ≡ some (leaf_for x nodes k p)
  unfolding leaf_for
  first_stop x nodes i rounds p child at path ats chosen here way zero l =
      ap path (omega arith) ∙ here
  first_stop x nodes i rounds p child at path ats chosen here way (suc k) l =
      ap path (omega arith)
      ∙ way.stops k (omega arith)
      ∙ ap (λ c. some (leaf_for x nodes k c.0)) (sym chosen)

  first_turn :
      (x : K) (nodes : ℤ → Node K) (i rounds : ℕ) (p child at : ℤ) (path : ℕ → Option ℤ)
      (ats : ℕ → ℤ)
      → child_for x (nodes p) ≡ (child, at)
      → ats i ≡ at
      → IsWay x nodes (suc i) rounds child path ats
      → (k : ℕ) → k < suc rounds
      → ats (i + k) ≡ (child_for x (nodes (leaf_for x nodes k p))).1
  unfolding leaf_for
  first_turn x nodes i rounds p child at path ats chosen there way zero l =
      ap ats (omega arith) ∙ there ∙ ap (λ c. c.1) (sym chosen)
  first_turn x nodes i rounds p child at path ats chosen there way (suc k) l =
      ap ats (omega arith)
      ∙ way.turns k (omega arith)
      ∙ ap (λ c. (child_for x (nodes (leaf_for x nodes k c.0))).1) (sym chosen)

  stop_here :
      (x : K) (nodes : ℤ → Node K) (i : ℕ) (p : ℤ) (path : ℕ → Option ℤ) (k : ℕ)
      → path i ≡ some p
      → k ≡ 0
      → path (i + k) ≡ some (leaf_for x nodes k p)
  unfolding leaf_for
  stop_here x nodes i p path zero here e = ap path (omega arith) ∙ here
  stop_here x nodes i p path (suc k) here e = absurd (omega arith)

  IsWay-step :
      (x : K) (nodes : ℤ → Node K) (i rounds : ℕ) (p child at : ℤ) (path : ℕ → Option ℤ)
      (ats : ℕ → ℤ)
      → child_for x (nodes p) ≡ (child, at)
      → path i ≡ some p
      → ats i ≡ at
      → IsWay x nodes (suc i) rounds child path ats
      → IsWay x nodes i (suc rounds) p path ats
  IsWay-step x nodes i rounds p child at path ats chosen here there way = record {
    stops = first_stop x nodes i rounds p child at path ats chosen here way;
    turns = first_turn x nodes i rounds p child at path ats chosen there way;
  }

-- An open index: its tree has `rounds` levels below the root, which `root` and `path` start with.
pub record IsIndex {K S : Type 0} ⦃key : KeyOrder K⦄ (InUse : ℤ → Type 0) (Good : S → Type 0)
    (s : Index K S) (rounds : ℕ) (root : ℤ) : Type 0 where
  pub valid : is_valid s ≡ pos 0
  pub good : Good s.pages
  pub at_root : s.root ≡ some root
  pub first : s.path 0 ≡ some root
  pub tall : s.hdr.height ≡ suc rounds
  pub tree : IsTree InUse s.nodes rounds root

module _ {K S : Type 0} ⦃key : KeyOrder K⦄ ⦃pf : Pages S⦄ {InUse : ℤ → Type 0}
    {Good : ℕ → S → Type 0} (serves : Serves InUse Good) where
  descend_lem :
      (n : ℕ) (x : K) (rounds i : ℕ) (p : ℤ) (s : Index K S)
      → is_valid s ≡ pos 0
      → Good (rounds + n) s.pages
      → s.path i ≡ some p
      → IsTree InUse s.nodes rounds p
      → (q : S) × (path : ℕ → Option ℤ) × (at : ℕ → ℤ) × (descend (leaf_step x) rounds (suc i) s
          ≡ ok (record s { pages = q; path = path; path_pos = at }) tt)
        × Good n q
        × IsWay x s.nodes i rounds p path at
        × ((j : ℕ) → j ≤ i → path j ≡ s.path j)
        × ((j : ℕ) → j < i → at j ≡ s.path_pos j)
  unfolding descend is_valid
  descend_lem n x zero i p s valid good here tree = (
    s.pages,
    s.path,
    s.path_pos,
    refl,
    subst (λ k. Good k s.pages) (omega arith) good,
    record {
      stops = λ k l. stop_here x s.nodes i p s.path k here (omega arith);
      turns = λ k l. absurd (omega arith);
    },
    λ j l. refl,
    λ j l. refl,
  )
  descend_lem n x (suc rounds) i p s valid good here tree =
      let (c, chosen, _, sub, _) = child_for_lem InUse s.nodes x rounds p tree in
      let child = kid (s.nodes p) c in
      let (q, path, stepped, good', there, same) =
        leaf_step_lem serves (rounds + n) x i p child (pos c) s valid
          (subst (λ k. Good k s.pages) (omega arith) good) here chosen
          (root-IsUsable InUse s.nodes rounds child sub) in
      let s' = record s { pages = q; path = path; path_pos = update s.path_pos i (pos c) } in
      let (q', path', at', went, good'', way, kept, kept') =
        descend_lem n x rounds (suc i) child s' valid good' there sub in
      (
        q',
        path',
        at',
        rw (stepped, descend, ◌>>◌, ◌>>=◌) went,
        good'',
        IsWay-step x s.nodes i rounds p child (pos c) path' at' chosen
            (kept i (omega arith) ∙ same i (omega arith) ∙ here)
            (kept' i (omega arith) ∙ update_self s.path_pos i (pos c)) way,
        λ j l. kept j (omega arith) ∙ same j (omega arith),
        λ j l. kept' j (omega arith) ∙ ground arith,
      )

  find_by_ok :
      (step : ℕ → Op (Index K S) (Unit {0})) (r leaf : ℤ) (b : Bool) (s t : Index K S)
      → is_valid s ≡ pos 0
      → s.root ≡ some r
      → (s.hdr.height == 1) ≡ b
      → find_level step r b s ≡ ok t leaf
      → find_by step s ≡ ok t (some leaf)
  unfolding find_by find_at_root
  find_by_ok step r leaf b s t valid at_root tall done =
      rw (valid, find_by, or_null, when_index_valid)
        (ap (λ o. or_null (find_at_root step o) s) at_root
          ∙ ap (λ c. or_null (find_level step r c) s) tall
          ∙ rw (done, or_null) refl)

  level_ok :
      (x : K) (rounds : ℕ) (r leaf : ℤ) (s t : Index K S)
      → s.hdr.height - 1 ≡ rounds
      → t.hdr.height ≡ suc rounds
      → descend (leaf_step x) rounds 1 s ≡ ok t tt
      → t.path rounds ≡ some leaf
      → find_level (leaf_step x) r false s ≡ ok t leaf
  unfolding find_level last_level
  level_ok x rounds r leaf s t tall tall' went last =
      rw (tall, went, tall', last, find_level, last_level, ◌>>◌, ◌>>=◌, deref) refl

  -- `find_leaf` by the levels below the root.
  find_leaf_by :
      (n : ℕ) (x : K) (rounds : ℕ) (root : ℤ) (s : Index K S)
      → is_valid s ≡ pos 0
      → Good (rounds + n) s.pages
      → s.root ≡ some root
      → s.path 0 ≡ some root
      → s.hdr.height ≡ suc rounds
      → IsTree InUse s.nodes rounds root
      → (q : S) × (path : ℕ → Option ℤ) × (at : ℕ → ℤ) × (find_leaf x s
          ≡ ok
              (record s { pages = q; path = path; path_pos = at })
              (some (leaf_for x s.nodes rounds root)))
        × Good n q
        × IsWay x s.nodes 0 rounds root path at
  unfolding find_leaf leaf_for find_level
  find_leaf_by n x zero root s valid good at_root first tall tree = (
    s.pages,
    update s.path 0 (some root),
    s.path_pos,
    find_by_ok (leaf_step x) root root true s _ valid at_root (ground (arith, tall)) refl,
    subst (λ k. Good k s.pages) (omega arith) good,
    record {
      stops = λ k l. stop_here x s.nodes 0 root (update s.path 0 (some root)) k refl (omega arith);
      turns = λ k l. absurd (omega arith);
    },
  )
  find_leaf_by n x (suc rounds) root s valid good at_root first tall tree =
      let (q, path, at, went, good', way, _, _) =
        descend_lem n x (suc rounds) 0 root s valid good first tree in
      (
        q,
        path,
        at,
        find_by_ok (leaf_step x) root (leaf_for x s.nodes (suc rounds) root) false s _ valid at_root
            (ground (arith, tall))
            (level_ok x (suc rounds) root (leaf_for x s.nodes (suc rounds) root) s _
              (omega (arith, tall)) tall went
              (ap path (omega arith) ∙ way.stops (suc rounds) (omega arith))),
        good',
        way,
      )

  -- On an open index, with a paged file that serves its pages and can pin one for each level,
  -- `FindLeaf` returns a leaf of the tree, which has an entry with an equal key if the tree has one. It
  -- changes no node and no header, leaves an open index behind, and `path` and `pathP` then hold the way
  -- from the root to that leaf, which stands at the end of the turns that the code takes.
  pub find_leaf-reaches :
      (n : ℕ) (x : K) (s : Index K S) (rounds : ℕ) (root : ℤ)
      → IsIndex InUse (Good (rounds + n)) s rounds root
      → (q : S) × (path : ℕ → Option ℤ) × (at : ℕ → ℤ) × (find_leaf x s
          ≡ ok
              (record s { pages = q; path = path; path_pos = at })
              (some (leaf_for x s.nodes rounds root)))
        × IsWay x s.nodes 0 rounds root path at
        × (HasKey x s.nodes rounds root → HasKey x s.nodes 0 (leaf_for x s.nodes rounds root))
        × ((k : K) (r : Rid)
            → Holds s.nodes 0 (leaf_for x s.nodes rounds root) k r
            → Holds s.nodes rounds root k r)
        × IsIndex InUse (Good n) (record s { pages = q; path = path; path_pos = at }) rounds root
  unfolding is_valid leaf_for
  find_leaf-reaches n x s rounds root h =
      let (q, path, at, found, good, way) =
        find_leaf_by n x rounds root s h.valid h.good h.at_root h.first h.tall h.tree in
      (
        q,
        path,
        at,
        found,
        way,
        (leaf_for_lem InUse s.nodes x rounds root h.tree).1,
        λ k r held. leaf_for-Holds InUse s.nodes x rounds root k r h.tree held,
        record {
          valid = h.valid;
          good = good;
          at_root = h.at_root;
          first = way.stops 0 (omega arith);
          tall = h.tall;
          tree = h.tree;
        },
      )
