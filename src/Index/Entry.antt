-- ===== src/Index/Entry.antt =====
-- `InsertEntry` of src/ix_indexhandle.cc on a whole index, against the set of entries of its tree.
use redbase.Base.{
  ℕ, zero, suc, ◌<◌, ◌==◌, ◌||◌, ◌≡◌, ◌≢◌, refl, ◌∙◌, sym, subst, ℤ, inl, inr, arith, true, false,
  Bool-cases,
}
use redbase.Btree.Key.{KeyOrder, gt0}
use redbase.Btree.Node.{Node}
use redbase.Btree.Order.{Le, Le_congr}
use redbase.Index.Apart.{IsApart}
use redbase.Index.Child.{leaf_for-Holds}
use redbase.Index.Grown.{grown}
use redbase.Index.Path.{child_for}
use redbase.Index.Plus.{Plus, Le_same}
use redbase.Index.Raise.{Above, raised, raised-off, rise-Route, put_node_at, put_node_off}
use redbase.Index.Rise.{Under, IsTop, LeafPlus, stay-Route, turn_for, Le_of_gt}
use redbase.Index.Route.{IsGrown, OnWay}
use redbase.Index.Tree.{IsTree, Holds, leaf_for, gt_false, kid, Le_of_eq}
use redbase.Index.{put_node}
use redbase.Record.Rid.{Rid}

module _ {K : Type 0} ⦃key : KeyOrder K⦄ where
  leaf-OnWay :
      (x : K) (nodes : ℤ → Node K) (height : ℕ) (p : ℤ)
      → OnWay x nodes height p (leaf_for x nodes height p)
  unfolding OnWay leaf_for
  leaf-OnWay x nodes zero p = refl
  leaf-OnWay x nodes (suc height) p = inr (leaf-OnWay x nodes height (child_for x (nodes p)).0)

  -- The largest key after the insertion.
  top_kept :
      (x old : K) (r : Rid) (nodes nodes' : ℤ → Node K) (height : ℕ) (p : ℤ)
      → IsTop old nodes height p
      → Under x nodes height p
      → Plus x r (Holds nodes height p) (Holds nodes' height p)
      → IsTop old nodes' height p
  top_kept x old r nodes nodes' height p (bound, attained) (k, s, h, le) plus = (
    λ k' s' h'. elim ((plus k' s').0 h') [
      | inl kept ↦ bound k' s' kept
      | inr (e, _) ↦ Le_congr e refl (key.cmp_trans x k old le (bound k s h))
    ],
    λ _ _ _. let (k', s', h', e) = attained k s h in (k', s', (plus k' s').1 (inl h'), e),
  )

  top_raised :
      (x : K) (r : Rid) (nodes nodes' : ℤ → Node K) (height : ℕ) (p : ℤ)
      → Above x nodes height p
      → Plus x r (Holds nodes height p) (Holds nodes' height p)
      → IsTop x nodes' height p
  top_raised x r nodes nodes' height p above plus = (
    λ k s h. elim ((plus k s).0 h) [
      | inl kept ↦ Le_of_gt k x (above k s kept)
      | inr (e, _) ↦ Le_same k x (sym e)
    ],
    λ _ _ _. (x, r, (plus x r).1 (inr (refl, refl)), key.cmp_refl x),
  )

  module _ (InUse : ℤ → Type 0) (x old : K) (r : Rid) (nodes : ℤ → Node K) (height : ℕ) (p : ℤ)
      (tree : IsTree InUse nodes height p) (a : IsApart nodes height p)
      (top : IsTop old nodes height p) (m : Node K)
      (leaf : LeafPlus InUse x nodes r (leaf_for x nodes height p) m) where
    -- The nodes with the new leaf.
    abbrev pub stored : ℤ → Node K
    stored = put_node (leaf_for x nodes height p) m nodes

    off_leaf : (q : ℤ) → ¬ OnWay x nodes height p q → q ≢ leaf_for x nodes height p
    off_leaf q off e =
        off (subst (λ q'. OnWay x nodes height p q') (sym e) (leaf-OnWay x nodes height p))

    pub IsGrown-Under :
        Under x nodes height p → IsGrown InUse x r nodes stored height p × IsTop old stored height p
    IsGrown-Under under =
        let g =
          grown InUse x r nodes stored height p tree a
            (stay-Route InUse x nodes r stored (leaf_for x nodes height p) height p refl tree a
              under (λ q b ne. put_node_off (leaf_for x nodes height p) q m nodes ne)
              (subst (λ n. LeafPlus InUse x nodes r (leaf_for x nodes height p) n)
                (sym (put_node_at (leaf_for x nodes height p) m nodes)) leaf))
            (λ q b off. put_node_off (leaf_for x nodes height p) q m nodes (off_leaf q off)) in
        (g, top_kept x old r nodes stored height p top under g.plus)

    pub IsGrown-Above :
        Above x nodes height p
        → IsGrown InUse x r nodes (raised InUse old x nodes height p stored) height p
          × IsTop x (raised InUse old x nodes height p stored) height p
    IsGrown-Above above =
        let g =
          grown InUse x r nodes (raised InUse old x nodes height p stored) height p tree a
            (rise-Route InUse old x nodes r stored (leaf_for x nodes height p) height p refl tree a
              above top (λ q b ne. put_node_off (leaf_for x nodes height p) q m nodes ne)
              (subst (λ n. LeafPlus InUse x nodes r (leaf_for x nodes height p) n)
                (sym (put_node_at (leaf_for x nodes height p) m nodes)) leaf))
            (λ q b off.
              raised-off InUse old x nodes height p q stored off
              ∙ put_node_off (leaf_for x nodes height p) q m nodes (off_leaf q off)) in
        (g, top_raised x r nodes (raised InUse old x nodes height p stored) height p above g.plus)

  -- Below an inner node no leaf is empty.
  leaf_full :
      (InUse : ℤ → Type 0) (x : K) (nodes : ℤ → Node K) (height : ℕ) (p : ℤ)
      → IsTree InUse nodes (suc height) p
      → 0 < (nodes (leaf_for x nodes (suc height) p)).num_keys
  unfolding IsTree leaf_for Holds
  leaf_full InUse x nodes zero p (u, inner) =
      let (c, chosen, takes) = turn_for InUse x nodes zero (nodes p) inner in
      let (_, _, (j, l, _, _), _) = inner.present c takes.0 in
      subst (λ d. 0 < (nodes (leaf_for x nodes 0 d.0)).num_keys) (sym chosen) (omega (arith, l))
  leaf_full InUse x nodes (suc height) p (u, inner) =
      let (c, chosen, takes) = turn_for InUse x nodes (suc height) (nodes p) inner in
      subst (λ d. 0 < (nodes (leaf_for x nodes (suc height) d.0)).num_keys) (sym chosen)
        (leaf_full InUse x nodes height (kid (nodes p) c) (inner.child c takes.0))

  gt_over : (x old k : K) → gt0 (key.cmp x old) ≡ true → Le k old → gt0 (key.cmp x k) ≡ true
  gt_over x old k g le = elim (Bool-cases (gt0 (key.cmp x k))) [
    | inl e ↦ e
    | inr e ↦ absurd (cc (gt_false x old k (ground (arith, e)) le, g))
  ]

  full_test :
      (n : Node K) (x old : K)
      → 0 < n.num_keys
      → (n.num_keys == 0 || gt0 (key.cmp x old)) ≡ true
      → gt0 (key.cmp x old) ≡ true
  full_test n x old l b = ground (arith, l, b)

  some_test :
      (n : Node K) (x old : K)
      → (n.num_keys == 0 || gt0 (key.cmp x old)) ≡ false
      → (0 < n.num_keys) × Le x old
  some_test n x old b = (ground (arith, b), ground (arith, b))

  -- The code's test on the largest key decides which of the two it is.
  pub test-Above :
      (InUse : ℤ → Type 0) (x old : K) (nodes : ℤ → Node K) (height : ℕ) (p : ℤ)
      → IsTree InUse nodes height p
      → IsTop old nodes height p
      → ((nodes (leaf_for x nodes height p)).num_keys == 0 || gt0 (key.cmp x old)) ≡ true
      → Above x nodes height p
  unfolding leaf_for Holds
  test-Above InUse x old nodes zero p tree (bound, _) b k s h =
      gt_over x old k (full_test (nodes p) x old (omega (arith, h.1)) b) (bound k s h)
  test-Above InUse x old nodes (suc height) p tree (bound, _) b k s h =
      gt_over x old k
        (full_test (nodes (leaf_for x nodes (suc height) p)) x old
          (leaf_full InUse x nodes height p tree) b)
        (bound k s h)

  pub test-Under :
      (InUse : ℤ → Type 0) (x old : K) (nodes : ℤ → Node K) (height : ℕ) (p : ℤ)
      → IsTree InUse nodes height p
      → IsTop old nodes height p
      → ((nodes (leaf_for x nodes height p)).num_keys == 0 || gt0 (key.cmp x old)) ≡ false
      → Under x nodes height p
  unfolding Holds
  test-Under InUse x old nodes height p tree (bound, attained) b =
      let n = nodes (leaf_for x nodes height p) in
      let (full, le) = some_test n x old b in
      let held =
        leaf_for-Holds InUse nodes x height p (n.keys 0) (n.rids 0) tree (0, full, refl, refl) in
      let (k, s, h, e) = attained (n.keys 0) (n.rids 0) held in
      (k, s, h, key.cmp_trans x old k le (Le_of_eq old k e))
