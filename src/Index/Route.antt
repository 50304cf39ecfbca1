-- ===== src/Index/Route.antt =====
-- The nodes of a tree after an entry came in: they differ on the way to the leaf for its key alone,
-- and there as `InsertEntry` of src/ix_indexhandle.cc changes them.
use redbase.Base.{ℕ, zero, suc, ◌<◌, ◌≡◌, ◌≢◌, sym, subst, ℤ, pos, inl, inr, ◌⊎◌}
use redbase.Btree.Insert.{IsValid}
use redbase.Btree.Key.{KeyOrder}
use redbase.Btree.Node.{Node}
use redbase.Btree.Order.{Le}
use redbase.Index.Apart.{Below, IsApart, Agrees, Below-agree, Holds-agree}
use redbase.Index.Path.{child_for}
use redbase.Index.Plus.{Plus, IsLifted, with_keys}
use redbase.Index.Tree.{kid, IsLeaf, Holds, IsTree}
use redbase.Record.Rid.{Rid}

module _ {K : Type 0} ⦃key : KeyOrder K⦄ where
  -- The entries of one node.
  abbrev pub Has : Node K → K → Rid → Type 0
  Has n k s = (j : ℕ) × (j < n.num_keys) × (n.keys j ≡ k) × (n.rids j ≡ s)

  -- The change of the inner node `n` into `n'`, above the child at `c`.
  pub record IsTurn (x : K) (n n' : Node K) (c : ℕ) (ks : ℕ → K) : Type 0 where
    pub inside : c < n.num_keys
    pub chosen : child_for x n ≡ (kid n c, pos c)
    pub changed : n' ≡ with_keys n ks
    pub lifted : IsLifted x n ks c
    pub bound : (j : ℕ) → suc j ≡ c → Le (n.keys j) x

  unfoldable pub Route : K → Rid → (ℤ → Node K) → (ℤ → Node K) → ℕ → ℤ → Type 0
  Route x r nodes nodes' zero p =
      IsLeaf (nodes' p) × IsValid (nodes' p) × Plus x r (Has (nodes p)) (Has (nodes' p))
  Route x r nodes nodes' (suc height) p =
      (c : ℕ) × (ks : ℕ → K) × IsTurn x (nodes p) (nodes' p) c ks
      × Route x r nodes nodes' height (kid (nodes p) c)

  -- The pages from `p` to the leaf for a key.
  unfoldable pub OnWay : K → (ℤ → Node K) → ℕ → ℤ → ℤ → Type 0
  unfolding child_for
  OnWay x nodes zero p q = q ≡ p
  OnWay x nodes (suc height) p q = (q ≡ p) ⊎ OnWay x nodes height (child_for x (nodes p)).0 q

  -- What one insertion comes to.
  pub record IsGrown (InUse : ℤ → Type 0) (x : K) (r : Rid) (nodes nodes' : ℤ → Node K) (height : ℕ)
      (p : ℤ) : Type 0 where
    pub tree : IsTree InUse nodes' height p
    pub apart : IsApart nodes' height p
    pub plus : Plus x r (Holds nodes height p) (Holds nodes' height p)
    pub below : (q : ℤ) → Below nodes' height p q → Below nodes height p q

  module _ (InUse : ℤ → Type 0) (x : K) (r : Rid) (nodes nodes' : ℤ → Node K) where
    pub IsGrown-leaf :
        (p : ℤ)
        → IsTree InUse nodes 0 p
        → Route x r nodes nodes' 0 p
        → IsGrown InUse x r nodes nodes' 0 p
    unfolding IsTree IsApart Holds Below Route
    IsGrown-leaf p (u, _) (leaf, valid, plus) = record {
      tree = (record { in_use = u.in_use; numbered = u.numbered; valid = valid }, leaf);
      apart = tt;
      plus = plus;
      below = λ q b. b;
    }

    -- Children that did not change, and the one that has grown.
    abbrev pub Children : ℕ → Node K → ℕ → Type 0
    Children height n c =
        (j : ℕ) → j < n.num_keys → (j ≡ c) ⊎ (Agrees nodes nodes' height (kid n j) × (j ≢ c))

    pub grown_split :
        (height : ℕ) (n : Node K) (c : ℕ)
        → Children height n c
        → IsGrown InUse x r nodes nodes' height (kid n c)
        → (j : ℕ) (k : K) (s : Rid) → j < n.num_keys
        → Holds nodes' height (kid n j) k s
        → Holds nodes height (kid n j) k s ⊎ ((j ≡ c) × (k ≡ x) × (s ≡ r))
    grown_split height n c cases g j k s l h = elim (cases j l) [
      | inr (same, _) ↦ inl ((Holds-agree nodes nodes' height (kid n j) k s same).0 h)
      | inl e ↦ elim ((g.plus k s).0 (subst (λ i. Holds nodes' height (kid n i) k s) e h)) [
        | inl old ↦ inl (subst (λ i. Holds nodes height (kid n i) k s) (sym e) old)
        | inr (e', e'') ↦ inr (e, e', e'')
      ]
    ]

    pub grown_kept :
        (height : ℕ) (n : Node K) (c : ℕ)
        → Children height n c
        → IsGrown InUse x r nodes nodes' height (kid n c)
        → (j : ℕ) (k : K) (s : Rid) → j < n.num_keys
        → Holds nodes height (kid n j) k s
        → Holds nodes' height (kid n j) k s
    grown_kept height n c cases g j k s l h = elim (cases j l) [
      | inr (same, _) ↦ (Holds-agree nodes nodes' height (kid n j) k s same).1 h
      | inl e ↦
          subst (λ i. Holds nodes' height (kid n i) k s) (sym e)
            ((g.plus k s).1 (inl (subst (λ i. Holds nodes height (kid n i) k s) e h)))
    ]

    pub grown-Below :
        (height : ℕ) (n : Node K) (c : ℕ)
        → Children height n c
        → IsGrown InUse x r nodes nodes' height (kid n c)
        → (j : ℕ) (q : ℤ) → j < n.num_keys
        → Below nodes' height (kid n j) q
        → Below nodes height (kid n j) q
    grown-Below height n c cases g j q l b = elim (cases j l) [
      | inr (same, _) ↦ Below-agree nodes nodes' height (kid n j) q same b
      | inl e ↦
          subst (λ i. Below nodes height (kid n i) q) (sym e)
            (g.below q (subst (λ i. Below nodes' height (kid n i) q) e b))
    ]

    pub grown_child :
        (height : ℕ) (n : Node K) (c : ℕ) (Sub Sub' : ℤ → Type 0)
        → ((j : ℕ) → Agrees nodes nodes' height (kid n j) → Sub (kid n j) → Sub' (kid n j))
        → Children height n c
        → Sub' (kid n c)
        → ((j : ℕ) → j < n.num_keys → Sub (kid n j))
        → (j : ℕ) → j < n.num_keys
        → Sub' (kid n j)
    grown_child height n c Sub Sub' keep cases sub all j l = elim (cases j l) [
      | inr (same, _) ↦ keep j same (all j l)
      | inl e ↦ subst (λ i. Sub' (kid n i)) (sym e) sub
    ]
