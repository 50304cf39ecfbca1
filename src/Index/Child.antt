-- ===== src/Index/Child.antt =====
-- The child that `FindLeaf` of src/ix_indexhandle.cc takes: every entry of the tree with the key is
-- also there in the leaf where it arrives.
use redbase.Base.{
  ℕ, zero, suc, ◌-◌, ◌≤◌, ◌<◌, ◌≡◌, ap, ◌∙◌, sym, true, false, ℤ, pos, ltb_ℤ, arith, lt-cases,
  le-cases, inl, inr, ◌⊎◌, Bool-cases, subst,
}
use redbase.Btree.Find.{find_key-Finds, Finds-unique, matches-null}
use redbase.Btree.Insert.{IsSorted}
use redbase.Btree.Key.{KeyOrder, eq0, lt0, gt0}
use redbase.Btree.Node.{
  Node, find_key, find_addr, find_key_position, find_addr_at_position, largest_key, get_key, rid_at,
}
use redbase.Btree.Order.{Le}
use redbase.Btree.Position.{find_key_position_lem}
use redbase.Index.Path.{child_for}
use redbase.Index.Tree.{
  kid, IsInner, IsUsable, Holds, IsTree, leaf_for, HasKey, Le_of_eq, Le_of_eq_sym, lt_false,
  gt_false, eq_trans,
}
use redbase.Record.Rid.{Rid, null_rid}

module _ {K : Type 0} ⦃key : KeyOrder K⦄ where
  -- The entry `p` of an inner node is one to follow for a key: its key is the same, or the first
  -- larger one, or the last where all are smaller.
  abbrev pub Takes : K → Node K → ℕ → Type 0
  Takes x n p =
      (p < n.num_keys)
      × ((eq0 (key.cmp x (n.keys p)) ≡ true)
          ⊎ ((lt0 (key.cmp x (n.keys p)) ≡ true)
              × ((j : ℕ) → j < p → gt0 (key.cmp x (n.keys j)) ≡ true))
          ⊎ ((suc p ≡ n.num_keys) × ((j : ℕ) → j < n.num_keys → gt0 (key.cmp x (n.keys j)) ≡ true)))

  -- Every key in front of one that is smaller is smaller.
  gt_before :
      (x : K) (n : Node K) (j p : ℕ)
      → IsSorted n
      → j ≤ p
      → p < n.num_keys
      → gt0 (key.cmp x (n.keys p)) ≡ true
      → gt0 (key.cmp x (n.keys j)) ≡ true
  gt_before x n j p sorted le l g = elim (lt-cases j p) [
    | inl h ↦ elim (Bool-cases (gt0 (key.cmp x (n.keys j)))) [
      | inl e ↦ e
      | inr e ↦ absurd (
          ground (
            arith,
            g,
            e,
            key.cmp_trans x (n.keys j) (n.keys p) (ground (arith, e)) (sorted j p h l),
          ))
    ]
    | inr (inl e) ↦ ap (λ i. gt0 (key.cmp x (n.keys i))) e ∙ g
    | inr (inr h) ↦ absurd (omega arith)
  ]

  -- The search for the largest key itself ends at the last entry.
  find_largest : (n : Node K) (m : ℕ) → n.num_keys ≡ suc m → find_key (n.keys m) null_rid n ≡ pos m
  find_largest n m e =
      Finds-unique (n.keys m) null_rid n n.num_keys m _
        (
          omega arith,
          matches-null (n.keys m) n m true (key.cmp_refl (n.keys m)),
          λ j l l'. absurd (omega arith),
        )
        (find_key-Finds (n.keys m) null_rid n)

  child_inside :
      (x : K) (n : Node K) (p : ℕ)
      → find_key_position x n ≡ pos p
      → p < n.num_keys
      → ltb_ℤ (kid n p) (pos 0) ≡ false
      → child_for x n ≡ (kid n p, pos p)
  unfolding child_for find_addr_at_position rid_at
  child_inside x n p found l kids = ground (arith, found, l, kids)

  child_outside :
      (x : K) (n : Node K) (p m : ℕ)
      → find_key_position x n ≡ pos p
      → n.num_keys ≤ p
      → n.num_keys ≡ suc m
      → child_for x n ≡ (kid n m, pos m)
  unfolding child_for find_addr_at_position largest_key get_key find_addr rid_at
  child_outside x n p m found l e = ground (arith, found, l, e, find_largest n m e)

  pub at_most :
      (n : Node K) (i j : ℕ) → IsSorted n → i ≤ j → j < n.num_keys → Le (n.keys i) (n.keys j)
  at_most n i j sorted le l = elim (lt-cases i j) [
    | inl h ↦ sorted i j h l
    | inr (inl e) ↦
        Le_of_eq (n.keys i) (n.keys j)
          (ap (λ k. eq0 (key.cmp (n.keys i) (n.keys k))) (sym e) ∙ key.cmp_refl (n.keys i))
    | inr (inr h) ↦ absurd (omega arith)
  ]

  -- What `FindLeaf` reads off an inner node: the page and the position of one entry to follow.
  pub child_for-Takes :
      (x : K) (n : Node K)
      → IsSorted n
      → 0 < n.num_keys
      → ((j : ℕ) → j < n.num_keys → ltb_ℤ (kid n j) (pos 0) ≡ false)
      → (p : ℕ) × (child_for x n ≡ (kid n p, pos p)) × Takes x n p
  child_for-Takes x n sorted some_keys kids =
      let (p, found, s, below) = find_key_position_lem x n sorted in
      elim (le-cases p n.num_keys) [
        | inl l ↦ (
          p,
          child_inside x n p found l (kids p l),
          (
            l,
            elim s.at [
              | inl (_, e) ↦ inl e
              | inr (here, before) ↦ inr (
                  inl (
                    here l,
                    λ j h.
                        gt_before x n j (p - 1) sorted (omega arith) (omega arith)
                          (before (p - 1) (omega arith)),
                  ))
            ],
          ),
        )
        | inr l ↦ (
          n.num_keys - 1,
          child_outside x n p (n.num_keys - 1) found l (omega arith),
          (
            omega arith,
            inr (
                inr (
                  omega arith,
                  λ j h.
                      gt_before x n j (n.num_keys - 1) sorted (omega arith) (omega arith)
                        (elim s.at [
                          | inl (h', _) ↦ absurd (omega arith)
                          | inr (_, before) ↦ before (n.num_keys - 1) (omega (arith, s.le))
                        ]),
                )),
          ),
        )
      ]

  -- No entry with the key is in another child.
  Takes-only :
      (x : K) (n : Node K) (p j : ℕ) (Sub : ℤ → Type 0) (In : ℤ → K → Rid → Type 0) (k : K)
      (r : Rid)
      → IsInner n Sub In
      → Takes x n p
      → j < n.num_keys
      → In (kid n j) k r
      → eq0 (key.cmp x k) ≡ true
      → (k' : K) × (r' : Rid) × In (kid n p) k' r' × (eq0 (key.cmp x k') ≡ true)
  Takes-only x n p j Sub In k r inner (l, inl e) lj held same =
      let (k', r', held', same') = inner.present p l in
      (k', r', held', eq_trans x (n.keys p) k' e same')
  Takes-only x n p j Sub In k r inner (l, inr (inr (_, larger))) lj held same = absurd (
      ground (
        arith,
        larger j lj,
        gt_false x (n.keys j) k (Le_of_eq x k same) (inner.upper j k r lj held),
      ))
  Takes-only x n p j Sub In k r inner (l, inr (inl (less, before))) lj held same =
      elim (lt-cases j p) [
        | inl h ↦ absurd (
            ground (
              arith,
              before j h,
              gt_false x (n.keys j) k (Le_of_eq x k same) (inner.upper j k r lj held),
            ))
        | inr (inl e) ↦ (k, r, subst (λ i. In (kid n i) k r) e held, same)
        | inr (inr h) ↦
            let back : j ≡ suc (j - 1) = omega arith in
            let held' = subst (λ i. In (kid n i) k r) back held in
            let below =
              key.cmp_trans _ _ _ (inner.lower (j - 1) k r (omega arith) held')
                (Le_of_eq_sym x k same) in
            absurd (
              ground (
                arith,
                less,
                lt_false x (n.keys p) (n.keys (j - 1))
                    (at_most n p (j - 1) inner.sorted (omega arith) (omega arith)) below,
              ))
      ]

  module _ (InUse : ℤ → Type 0) (nodes : ℤ → Node K) where
    pub root-IsUsable : (height : ℕ) (p : ℤ) → IsTree InUse nodes height p → IsUsable InUse nodes p
    unfolding IsTree
    root-IsUsable zero p tree = tree.0
    root-IsUsable (suc height) p tree = tree.0

    -- One level of the search: the child is a tree, and an entry with the key is in it if there is
    -- one at all.
    pub child_for_lem :
        (x : K) (height : ℕ) (p : ℤ)
        → IsTree InUse nodes (suc height) p
        → (j : ℕ) × (child_for x (nodes p) ≡ (kid (nodes p) j, pos j))
          × (j < (nodes p).num_keys)
          × IsTree InUse nodes height (kid (nodes p) j)
          × (HasKey x nodes (suc height) p → HasKey x nodes height (kid (nodes p) j))
    unfolding IsTree Holds
    child_for_lem x height p (usable, inner) =
        let (j, found, takes) =
          child_for-Takes x (nodes p) inner.sorted inner.nonempty
            (λ i l. (root-IsUsable height (kid (nodes p) i) (inner.child i l)).numbered) in
        (
          j,
          found,
          takes.0,
          inner.child j takes.0,
          λ (k, r, (i, l, held), same).
              Takes-only x (nodes p) j i (IsTree InUse nodes height) (Holds nodes height) k r inner
                takes l held same,
        )

    -- The leaf for a key is a leaf of the tree, and where the tree has the key, it has it too.
    pub leaf_for_lem :
        (x : K) (height : ℕ) (p : ℤ)
        → IsTree InUse nodes height p
        → IsTree InUse nodes 0 (leaf_for x nodes height p)
          × (HasKey x nodes height p → HasKey x nodes 0 (leaf_for x nodes height p))
    unfolding leaf_for
    leaf_for_lem x zero p tree = (tree, λ h. h)
    leaf_for_lem x (suc height) p tree =
        let (j, found, _, sub, goes) = child_for_lem x height p tree in
        let (leaf, below) = leaf_for_lem x height (kid (nodes p) j) sub in
        rw (found) (leaf, λ h. below (goes h))

    -- What the leaf holds, the tree holds.
    pub leaf_for-Holds :
        (x : K) (height : ℕ) (p : ℤ) (k : K) (r : Rid)
        → IsTree InUse nodes height p
        → Holds nodes 0 (leaf_for x nodes height p) k r
        → Holds nodes height p k r
    unfolding leaf_for Holds
    leaf_for-Holds x zero p k r tree held = held
    leaf_for-Holds x (suc height) p k r tree held =
        let (j, found, l, sub, _) = child_for_lem x height p tree in
        (
          j,
          l,
          leaf_for-Holds x height (kid (nodes p) j) k r sub (
              subst (λ q. Holds nodes 0 (leaf_for x nodes height q) k r) (ap (λ c. c.0) found)
                held),
        )
