-- ===== src/Index/Raise.antt =====
-- A key that is larger than all of the tree: `InsertEntry` of src/ix_indexhandle.cc raises the
-- largest key of every node on the way to the last leaf.
use redbase.Base.{
  ℕ, zero, suc, ◌<◌, ◌≡◌, ◌≢◌, refl, ap, ◌∙◌, sym, subst, ℤ, pos, negsuc, inl, inr, arith, true,
  Bool-cases, eqb_ℤ, eqb_ℤ_iff, update, update_ne, update_self, lt→ltb,
}
use redbase.Btree.Find.{find_key-Finds, Finds-unique, matches-null}
use redbase.Btree.Key.{KeyOrder, eq0, gt0}
use redbase.Btree.Node.{Node, find_key, set_key}
use redbase.Btree.Order.{Le}
use redbase.Index.Apart.{Below, IsApart}
use redbase.Index.Child.{Takes, at_most}
use redbase.Index.Insert.{raise_key}
use redbase.Index.Path.{child_for}
use redbase.Index.Plus.{with_keys}
use redbase.Index.Rise.{IsTop, LeafPlus, turn_for, leaf-Below, way-Below, Le_of_gt, Le_of_lt}
use redbase.Index.Route.{IsTurn, Route, OnWay}
use redbase.Index.Tree.{
  kid, IsInner, Holds, IsTree, leaf_for, Le_of_eq, gt_false, eq_of_Le, eq_trans,
}
use redbase.Index.{put_node}
use redbase.Record.Rid.{Rid, null_rid}

module _ {K : Type 0} ⦃key : KeyOrder K⦄ where
  pub put_node_at : (p : ℤ) (n : Node K) (nodes : ℤ → Node K) → put_node p n nodes p ≡ n
  put_node_at p n nodes = rw ((eqb_ℤ_iff p p).1 refl) refl

  pub put_node_off :
      (p q : ℤ) (n : Node K) (nodes : ℤ → Node K) → q ≢ p → put_node p n nodes q ≡ nodes q
  put_node_off p q n nodes ne = elim (Bool-cases (eqb_ℤ q p)) [
    | inl e ↦ absurd (ne ((eqb_ℤ_iff q p).0 e))
    | inr e ↦ rw (e) refl
  ]

  raise_key-off :
      (x : K) (p q z : ℤ) (nodes : ℤ → Node K) → q ≢ p → raise_key x p z nodes q ≡ nodes q
  unfolding raise_key
  raise_key-off x p q (pos at) nodes ne = put_node_off p q _ nodes ne
  raise_key-off x p q (negsuc c) nodes ne = refl

  raise_key-at :
      (x : K) (p : ℤ) (c : ℕ) (n : Node K) (nodes : ℤ → Node K)
      → nodes p ≡ n
      → c < n.order
      → raise_key x p (pos c) nodes p ≡ with_keys n (update n.keys c x)
  unfolding raise_key set_key
  raise_key-at x p c n nodes e l =
      put_node_at p (set_key c x (nodes p)).0 nodes
      ∙ ap (λ m. (set_key c x m).0) e
      ∙ rw (lt→ltb c n.order l) refl

  -- Every key of the tree is smaller than `x`.
  abbrev pub Above : K → (ℤ → Node K) → ℕ → ℤ → Type 0
  Above x nodes height p = (k : K) (s : Rid) → Holds nodes height p k s → gt0 (key.cmp x k) ≡ true

  module _ (InUse : ℤ → Type 0) (old x : K) (nodes : ℤ → Node K) where
    -- The nodes that the loop makes of `now`, along the way in `nodes`.
    unfoldable pub raised : ℕ → ℤ → (ℤ → Node K) → ℤ → Node K
    unfolding raise_key child_for find_key
    raised zero p now = now
    raised (suc height) p now =
        raised height (child_for x (nodes p)).0 (raise_key x p (find_key old null_rid (now p)) now)

    pub raised-off :
        (height : ℕ) (p q : ℤ) (now : ℤ → Node K)
        → ¬ OnWay x nodes height p q
        → raised height p now q ≡ now q
    unfolding raised OnWay
    raised-off zero p q now off = refl
    raised-off (suc height) p q now off =
        raised-off height (child_for x (nodes p)).0 q _ (λ w. off (inr w))
        ∙ raise_key-off x p q (find_key old null_rid (now p)) now (λ e. off (inl e))

    -- A key above all goes to the last child.
    Above-turn :
        (height : ℕ) (p : ℤ) (c : ℕ)
        → IsInner (nodes p) (IsTree InUse nodes height) (Holds nodes height)
        → Takes x (nodes p) c
        → Above x nodes (suc height) p
        → (suc c ≡ (nodes p).num_keys) × Le ((nodes p).keys c) x
    unfolding Holds
    Above-turn height p c inner takes above =
        let (k, s, h, e) = inner.present c takes.0 in
        let larger = above k s (c, takes.0, h) in
        let le = key.cmp_trans _ _ _ (Le_of_eq ((nodes p).keys c) k e) (Le_of_gt k x larger) in
        elim takes.1 [
          | inl same ↦ absurd (
              ground (
                arith,
                larger,
                gt_false x k ((nodes p).keys c) (Le_of_eq x ((nodes p).keys c) same)
                    (Le_of_eq ((nodes p).keys c) k e),
              ))
          | inr (inl (less, _)) ↦ absurd (
              ground (
                arith,
                larger,
                gt_false x k ((nodes p).keys c) (Le_of_lt x ((nodes p).keys c) less)
                    (Le_of_eq ((nodes p).keys c) k e),
              ))
          | inr (inr (last, _)) ↦ (last, le)
        ]

    -- The largest key is that of the last entry, and of the last child.
    top_last :
        (height : ℕ) (p : ℤ) (c : ℕ)
        → IsInner (nodes p) (IsTree InUse nodes height) (Holds nodes height)
        → suc c ≡ (nodes p).num_keys
        → IsTop old nodes (suc height) p
        → eq0 (key.cmp old ((nodes p).keys c)) ≡ true
    unfolding Holds
    top_last height p c inner last (bound, attained) =
        let (k, s, h, e) = inner.present c (omega arith) in
        let (k', s', (j, l, h'), e') = attained k s (c, omega arith, h) in
        eq_of_Le old ((nodes p).keys c)
          (key.cmp_trans _ _ _ (Le_of_eq old k' e') (
            key.cmp_trans _ _ _ (inner.upper j k' s' l h')
              (at_most (nodes p) j c inner.sorted (omega (arith, last)) (omega arith))))
          (key.cmp_trans _ _ _ (Le_of_eq ((nodes p).keys c) k e) (bound k s (c, omega arith, h)))

    top_child :
        (height : ℕ) (p : ℤ) (c : ℕ)
        → IsInner (nodes p) (IsTree InUse nodes height) (Holds nodes height)
        → suc c ≡ (nodes p).num_keys
        → IsTop old nodes (suc height) p
        → IsTop old nodes height (kid (nodes p) c)
    unfolding Holds
    top_child height p c inner last top = (
      λ k s h. top.0 k s (c, omega arith, h),
      λ _ _ _.
          let (k, s, h, e) = inner.present c (omega arith) in
          (k, s, h, eq_trans old ((nodes p).keys c) k (top_last height p c inner last top) e),
    )

    find_top :
        (n : Node K) (c : ℕ)
        → suc c ≡ n.num_keys
        → eq0 (key.cmp old (n.keys c)) ≡ true
        → find_key old null_rid n ≡ pos c
    find_top n c last same =
        Finds-unique old null_rid n n.num_keys c _
          (omega arith, matches-null old n c true same, λ j l l'. absurd (omega arith))
          (find_key-Finds old null_rid n)

    -- The nodes after the loop have the changes of an insertion.
    pub rise-Route :
        (r : Rid) (now : ℤ → Node K) (l : ℤ) (height : ℕ) (p : ℤ)
        → leaf_for x nodes height p ≡ l
        → IsTree InUse nodes height p
        → IsApart nodes height p
        → Above x nodes height p
        → IsTop old nodes height p
        → ((q : ℤ) → Below nodes height p q → q ≢ l → now q ≡ nodes q)
        → LeafPlus InUse x nodes r l (now l)
        → Route x r nodes (raised height p now) height p
    unfolding IsTree IsApart Below leaf_for Route raised OnWay Holds
    rise-Route r now l zero p e tree a above top same leaf =
        subst (λ q. LeafPlus InUse x nodes r q (now q)) (sym e) leaf
    rise-Route r now l (suc height) p e (u, inner) a above top same leaf =
        let (c, chosen, takes) = turn_for InUse x nodes height (nodes p) inner in
        let (last, le) = Above-turn height p c inner takes above in
        let child = kid (nodes p) c in
        let sub = inner.child c takes.0 in
        let e' : leaf_for x nodes height child ≡ l =
          ap (λ d. leaf_for x nodes height d.0) (sym chosen) ∙ e in
        let apart : p ≢ l = λ d. a.own c takes.0 (
          subst (λ q. Below nodes height child q) (e' ∙ sym d)
            (leaf-Below InUse x nodes height child sub)) in
        let here = same p (inl refl) apart in
        let seen : find_key old null_rid (now p) ≡ pos c =
          ap (find_key old null_rid) here
          ∙ find_top (nodes p) c last (top_last height p c inner last top) in
        let next = raise_key x p (find_key old null_rid (now p)) now in
        let keeps : (q : ℤ) → q ≢ p → next q ≡ now q = λ q. raise_key-off x p q _ now in
        let off : ¬ OnWay x nodes height child p =
          λ w. a.own c takes.0 (way-Below InUse x nodes height child p sub w) in
        subst
          (λ made.
            (c' : ℕ) × (ks : ℕ → K) × IsTurn x (nodes p) (made p) c' ks
            × Route x r nodes made height (kid (nodes p) c'))
          (ap (λ d. raised height d.0 next) (sym chosen))
          (
            c,
            update (nodes p).keys c x,
            record {
              inside = takes.0;
              chosen = chosen;
              changed =
                  raised-off height child p next off
                  ∙ ap (λ z. raise_key x p z now p) seen
                  ∙ raise_key-at x p c (nodes p) now here (omega (arith, takes.0, u.valid.fits));
              lifted = record {
                rest = λ j ne. update_ne (nodes p).keys c j x ne;
                at = inr (update_self (nodes p).keys c x, last, le);
              };
              bound = λ j s. key.cmp_trans _ _ _ (inner.sorted j c (omega arith) takes.0) le;
            },
            rise-Route r next l height child e' sub (a.child c takes.0)
                (λ k s h. above k s (c, takes.0, h)) (top_child height p c inner last top)
                (λ q b ne.
                  keeps q (λ d. a.own c takes.0 (subst (λ q'. Below nodes height child q') d b))
                  ∙ same q (inr (c, takes.0, b)) ne)
                (subst (λ m. LeafPlus InUse x nodes r l m) (sym (keeps l (λ d. apart (sym d))))
                  leaf),
          )
