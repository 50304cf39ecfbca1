-- ===== src/Index/Rise.antt =====
-- The way that `InsertEntry` of src/ix_indexhandle.cc takes when the key is not larger than the
-- largest of the tree, and when it is: then the largest keys of the nodes on the way are raised.
use redbase.Base.{
  ℕ, zero, suc, ◌-◌, ◌<◌, ◌≡◌, ◌≢◌, refl, ap, ◌∙◌, sym, subst, ℤ, pos, inl, inr, arith, true,
}
use redbase.Btree.Insert.{IsValid, IsSorted}
use redbase.Btree.Key.{KeyOrder, eq0, gt0, lt0}
use redbase.Btree.Node.{Node}
use redbase.Btree.Order.{Le}
use redbase.Index.Apart.{Below, IsApart}
use redbase.Index.Child.{child_for-Takes, Takes, root-IsUsable, at_most}
use redbase.Index.Path.{child_for}
use redbase.Index.Plus.{Plus}
use redbase.Index.Route.{Has, Route, OnWay}
use redbase.Index.Tree.{
  kid, IsInner, IsLeaf, Holds, IsTree, leaf_for, Le_of_eq, Le_of_eq_sym, gt_false,
}
use redbase.Record.Rid.{Rid}

module _ {K : Type 0} ⦃key : KeyOrder K⦄ where
  -- A tree with a key that is not smaller.
  abbrev pub Under : K → (ℤ → Node K) → ℕ → ℤ → Type 0
  Under x nodes height p = (k : K) × (s : Rid) × Holds nodes height p k s × Le x k

  -- The largest key of a tree that holds something.
  abbrev pub IsTop : K → (ℤ → Node K) → ℕ → ℤ → Type 0
  IsTop old nodes height p =
      ((k : K) (s : Rid) → Holds nodes height p k s → Le k old)
      × ((k : K) (s : Rid)
          → Holds nodes height p k s
          → (k' : K) × (s' : Rid) × Holds nodes height p k' s' × (eq0 (key.cmp old k') ≡ true))

  at_most_last :
      (n : Node K) (j : ℕ) → IsSorted n → j < n.num_keys → Le (n.keys j) (n.keys (n.num_keys - 1))
  at_most_last n j sorted l = at_most n j (n.num_keys - 1) sorted (omega arith) (omega arith)

  pub Le_of_gt : (a b : K) → gt0 (key.cmp b a) ≡ true → Le a b
  Le_of_gt a b h = ground (arith, key.cmp_flip b a)

  pub Le_of_lt : (a b : K) → lt0 (key.cmp a b) ≡ true → Le a b
  Le_of_lt a b h = ground arith

  module _ (InUse : ℤ → Type 0) (x : K) (nodes : ℤ → Node K) where
    pub turn_for :
        (height : ℕ) (n : Node K)
        → IsInner n (IsTree InUse nodes height) (Holds nodes height)
        → (p : ℕ) × (child_for x n ≡ (kid n p, pos p)) × Takes x n p
    turn_for height n inner =
        child_for-Takes x n inner.sorted inner.nonempty
          (λ i l. (root-IsUsable InUse nodes height (kid n i) (inner.child i l)).numbered)

    -- The leaf for a key is a page of the tree.
    pub leaf-Below :
        (height : ℕ) (p : ℤ)
        → IsTree InUse nodes height p
        → Below nodes height p (leaf_for x nodes height p)
    unfolding IsTree Below leaf_for
    leaf-Below zero p tree = refl
    leaf-Below (suc height) p (_, inner) =
        let (c, chosen, takes) = turn_for height (nodes p) inner in
        inr (
          c,
          takes.0,
          subst (λ d. Below nodes height (kid (nodes p) c) (leaf_for x nodes height d.0))
              (sym chosen) (leaf-Below height (kid (nodes p) c) (inner.child c takes.0)),
        )

    -- No page from `p` to the leaf is outside the tree.
    pub way-Below :
        (height : ℕ) (p q : ℤ)
        → IsTree InUse nodes height p
        → OnWay x nodes height p q
        → Below nodes height p q
    unfolding IsTree OnWay Below
    way-Below zero p q tree e = e
    way-Below (suc height) p q tree (inl e) = inl e
    way-Below (suc height) p q (_, inner) (inr w) =
        let (c, chosen, takes) = turn_for height (nodes p) inner in
        inr (
          c,
          takes.0,
          way-Below height (kid (nodes p) c) q (inner.child c takes.0)
              (subst (λ d. OnWay x nodes height d.0 q) chosen w),
        )

    -- The child for a key that is not larger than all: the key fits under its largest.
    Under-turn :
        (height : ℕ) (p : ℤ) (c : ℕ)
        → IsInner (nodes p) (IsTree InUse nodes height) (Holds nodes height)
        → Takes x (nodes p) c
        → Under x nodes (suc height) p
        → Le x ((nodes p).keys c) × ((j : ℕ) → suc j ≡ c → Le ((nodes p).keys j) x)
    unfolding Holds
    Under-turn height p c inner (l, inl e) under = (
      Le_of_eq x ((nodes p).keys c) e,
      λ j s.
          key.cmp_trans _ _ _ (inner.sorted j c (omega arith) l)
            (Le_of_eq_sym x ((nodes p).keys c) e),
    )
    Under-turn height p c inner (l, inr (inl (less, before))) under = (
      Le_of_lt x ((nodes p).keys c) less,
      λ j s. Le_of_gt ((nodes p).keys j) x (before j (omega arith)),
    )
    Under-turn height p c inner (l, inr (inr (_, larger))) (k, s, (j, lj, h), le) =
        absurd
          (ground (arith, larger j lj, gt_false x ((nodes p).keys j) k le (inner.upper j k s lj h)))

    Under-child :
        (height : ℕ) (p : ℤ) (c : ℕ)
        → IsInner (nodes p) (IsTree InUse nodes height) (Holds nodes height)
        → c < (nodes p).num_keys
        → Le x ((nodes p).keys c)
        → Under x nodes height (kid (nodes p) c)
    Under-child height p c inner l le =
        let (k, s, h, e) = inner.present c l in
        (k, s, h, key.cmp_trans x ((nodes p).keys c) k le (Le_of_eq ((nodes p).keys c) k e))

    -- The leaf `l` after the insertion of an entry.
    abbrev pub LeafPlus : Rid → ℤ → Node K → Type 0
    LeafPlus r l m = IsLeaf m × IsValid m × Plus x r (Has (nodes l)) (Has m)

    -- A key that is not larger than the largest: only the leaf changes.
    pub stay-Route :
        (r : Rid) (nodes' : ℤ → Node K) (l : ℤ) (height : ℕ) (p : ℤ)
        → leaf_for x nodes height p ≡ l
        → IsTree InUse nodes height p
        → IsApart nodes height p
        → Under x nodes height p
        → ((q : ℤ) → Below nodes height p q → q ≢ l → nodes' q ≡ nodes q)
        → LeafPlus r l (nodes' l)
        → Route x r nodes nodes' height p
    unfolding IsTree IsApart Below leaf_for Route
    stay-Route r nodes' l zero p e tree a under same leaf =
        subst (λ q. LeafPlus r q (nodes' q)) (sym e) leaf
    stay-Route r nodes' l (suc height) p e (_, inner) a under same leaf =
        let (c, chosen, takes) = turn_for height (nodes p) inner in
        let (le, bound) = Under-turn height p c inner takes under in
        let child = kid (nodes p) c in
        let e' : leaf_for x nodes height child ≡ l =
          ap (λ d. leaf_for x nodes height d.0) (sym chosen) ∙ e in
        let apart : p ≢ l = λ d. a.own c takes.0 (
          subst (λ q. Below nodes height child q) (e' ∙ sym d)
            (leaf-Below height child (inner.child c takes.0))) in
        (
          c,
          (nodes p).keys,
          record {
            inside = takes.0;
            chosen = chosen;
            changed = same p (inl refl) apart;
            lifted = record { rest = λ j h. refl; at = inl (refl, le) };
            bound = bound;
          },
          stay-Route r nodes' l height child e' (inner.child c takes.0) (a.child c takes.0)
              (Under-child height p c inner takes.0 le) (λ q b. same q (inr (c, takes.0, b))) leaf,
        )
