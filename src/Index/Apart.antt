-- ===== src/Index/Apart.antt =====
-- The pages of a tree: no two nodes of an index share a page, so a change of one node leaves the
-- other subtrees as they are.
use redbase.Base.{ℕ, zero, suc, ◌<◌, ◌≡◌, ◌≢◌, refl, sym, subst, ℤ, inl, inr, ◌⊎◌, ◌↔◌}
use redbase.Btree.Insert.{IsValid}
use redbase.Btree.Key.{KeyOrder}
use redbase.Btree.Node.{Node}
use redbase.Index.Tree.{kid, IsInner, IsLeaf, IsUsable, Holds, IsTree}
use redbase.Record.Rid.{Rid}

module _ {K : Type 0} where
  -- `q` is a page of the tree below `p`.
  unfoldable pub Below : (ℤ → Node K) → ℕ → ℤ → ℤ → Type 0
  Below nodes zero p q = q ≡ p
  Below nodes (suc height) p q =
      (q ≡ p) ⊎ ((j : ℕ) × (j < (nodes p).num_keys) × Below nodes height (kid (nodes p) j) q)

  -- The subtrees of an inner node do not meet, and its own page is in none of them.
  pub record IsSplit (n : Node K) (p : ℤ) (In : ℤ → ℤ → Type 0) (Sub : ℤ → Type 0) : Type 0 where
    pub own : (j : ℕ) → j < n.num_keys → ¬ In (kid n j) p
    pub apart :
        (i j : ℕ) (q : ℤ)
        → i < n.num_keys
        → j < n.num_keys
        → i ≢ j
        → In (kid n i) q
        → ¬ In (kid n j) q
    pub child : (j : ℕ) → j < n.num_keys → Sub (kid n j)

  unfoldable pub IsApart : (ℤ → Node K) → ℕ → ℤ → Type 0
  unfolding Below
  IsApart nodes zero p = Unit {0}
  IsApart nodes (suc height) p = IsSplit (nodes p) p (Below nodes height) (IsApart nodes height)

  pub Below-root : (nodes : ℤ → Node K) (height : ℕ) (p : ℤ) → Below nodes height p p
  unfolding Below
  Below-root nodes zero p = refl
  Below-root nodes (suc height) p = inl refl

  -- The nodes of a tree agree with those of another index.
  abbrev pub Agrees : (ℤ → Node K) → (ℤ → Node K) → ℕ → ℤ → Type 0
  Agrees nodes nodes' height p = (q : ℤ) → Below nodes height p q → nodes' q ≡ nodes q

  Agrees-child :
      (nodes nodes' : ℤ → Node K) (height : ℕ) (p : ℤ) (j : ℕ)
      → Agrees nodes nodes' (suc height) p
      → j < (nodes p).num_keys
      → Agrees nodes nodes' height (kid (nodes p) j)
  unfolding Below
  Agrees-child nodes nodes' height p j same l q b = same q (inr (j, l, b))

  pub Below-agree :
      (nodes nodes' : ℤ → Node K) (height : ℕ) (p q : ℤ)
      → Agrees nodes nodes' height p
      → Below nodes' height p q
      → Below nodes height p q
  unfolding Below
  Below-agree nodes nodes' zero p q same b = b
  Below-agree nodes nodes' (suc height) p q same (inl e) = inl e
  Below-agree nodes nodes' (suc height) p q same (inr (j, l, b)) =
      let here = same p (Below-root nodes (suc height) p) in
      let l' = subst (λ n. j < n.num_keys) here l in
      inr (
        j,
        l',
        Below-agree nodes nodes' height (kid (nodes p) j) q
            (Agrees-child nodes nodes' height p j same l')
            (subst (λ n. Below nodes' height (kid n j) q) here b),
      )

  pub IsApart-agree :
      (nodes nodes' : ℤ → Node K) (height : ℕ) (p : ℤ)
      → Agrees nodes nodes' height p
      → IsApart nodes height p
      → IsApart nodes' height p
  unfolding IsApart
  IsApart-agree nodes nodes' zero p same a = tt
  IsApart-agree nodes nodes' (suc height) p same a =
      let here = same p (Below-root nodes (suc height) p) in
      subst (λ n. IsSplit n p (Below nodes' height) (IsApart nodes' height)) (sym here)
        (record {
          own = λ j l b. a.own j l (
              Below-agree nodes nodes' height (kid (nodes p) j) p
                (Agrees-child nodes nodes' height p j same l) b);
          apart = λ i j q li lj ne bi bj.
              a.apart i j q li lj ne
                (Below-agree nodes nodes' height (kid (nodes p) i) q
                  (Agrees-child nodes nodes' height p i same li) bi)
                (Below-agree nodes nodes' height (kid (nodes p) j) q
                  (Agrees-child nodes nodes' height p j same lj) bj);
          child = λ j l.
              IsApart-agree nodes nodes' height (kid (nodes p) j)
                (Agrees-child nodes nodes' height p j same l) (a.child j l);
        })

module _ {K : Type 0} ⦃key : KeyOrder K⦄ where
  pub Holds-agree :
      (nodes nodes' : ℤ → Node K) (height : ℕ) (p : ℤ) (k : K) (r : Rid)
      → Agrees nodes nodes' height p
      → Holds nodes' height p k r ↔ Holds nodes height p k r
  unfolding Holds
  Holds-agree nodes nodes' zero p k r same = rw (same p (Below-root nodes 0 p)) (λ h. h, λ h. h)
  Holds-agree nodes nodes' (suc height) p k r same = rw (same p (Below-root nodes (suc height) p)) (
    λ (j, l, h). (
      j,
      l,
      (Holds-agree nodes nodes' height (kid (nodes p) j) k r
            (Agrees-child nodes nodes' height p j same l)).0
          h,
    ),
    λ (j, l, h). (
      j,
      l,
      (Holds-agree nodes nodes' height (kid (nodes p) j) k r
            (Agrees-child nodes nodes' height p j same l)).1
          h,
    ),
  )

  -- An inner node over children that hold the same.
  pub IsInner_map :
      (n : Node K) (Sub Sub' : ℤ → Type 0) (In In' : ℤ → K → Rid → Type 0)
      → ((j : ℕ) → j < n.num_keys → Sub (kid n j) → Sub' (kid n j))
      → ((j : ℕ) (k : K) (r : Rid) → j < n.num_keys → In' (kid n j) k r ↔ In (kid n j) k r)
      → IsInner n Sub In
      → IsInner n Sub' In'
  IsInner_map n Sub Sub' In In' sub same inner = record {
    sorted = inner.sorted;
    nonempty = inner.nonempty;
    child = λ j l. sub j l (inner.child j l);
    upper = λ j k r l h. inner.upper j k r l ((same j k r l).0 h);
    lower = λ j k r l h. inner.lower j k r l ((same (suc j) k r l).0 h);
    present = λ j l. let (k, r, h, e) = inner.present j l in (k, r, (same j k r l).1 h, e);
  }

  IsUsable-agree :
      (InUse : ℤ → Type 0) (nodes nodes' : ℤ → Node K) (p : ℤ)
      → nodes' p ≡ nodes p
      → IsUsable InUse nodes p
      → IsUsable InUse nodes' p
  IsUsable-agree InUse nodes nodes' p e u = record {
    in_use = u.in_use;
    numbered = u.numbered;
    valid = subst IsValid (sym e) u.valid;
  }

  pub IsTree-agree :
      (InUse : ℤ → Type 0) (nodes nodes' : ℤ → Node K) (height : ℕ) (p : ℤ)
      → Agrees nodes nodes' height p
      → IsTree InUse nodes height p
      → IsTree InUse nodes' height p
  unfolding IsTree
  IsTree-agree InUse nodes nodes' zero p same (u, leaf) =
      let here = same p (Below-root nodes 0 p) in
      (IsUsable-agree InUse nodes nodes' p here u, subst IsLeaf (sym here) leaf)
  IsTree-agree InUse nodes nodes' (suc height) p same (u, inner) =
      let here = same p (Below-root nodes (suc height) p) in
      (
        IsUsable-agree InUse nodes nodes' p here u,
        subst (λ n. IsInner n (IsTree InUse nodes' height) (Holds nodes' height)) (sym here)
            (IsInner_map (nodes p) (IsTree InUse nodes height) (IsTree InUse nodes' height)
              (Holds nodes height) (Holds nodes' height)
              (λ j l.
                IsTree-agree InUse nodes nodes' height (kid (nodes p) j)
                  (Agrees-child nodes nodes' height p j same l))
              (λ j k r l.
                Holds-agree nodes nodes' height (kid (nodes p) j) k r
                  (Agrees-child nodes nodes' height p j same l))
              inner),
      )
