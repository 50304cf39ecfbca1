-- ===== src/Index/Grown.antt =====
-- A tree on whose way to the leaf for a key `InsertEntry` of src/ix_indexhandle.cc made its changes
-- is a tree again, and holds one entry more.
use redbase.Base.{ℕ, zero, suc, ◌<◌, ◌≡◌, ◌≢◌, refl, sym, subst, ℤ, inl, inr, arith, lt-cases}
use redbase.Btree.Key.{KeyOrder}
use redbase.Btree.Node.{Node}
use redbase.Index.Apart.{Below, IsApart, IsSplit, Agrees, IsApart-agree, IsTree-agree}
use redbase.Index.Path.{child_for}
use redbase.Index.Plus.{Plus, IsInner_plus}
use redbase.Index.Route.{
  IsTurn, Route, OnWay, IsGrown, Children, IsGrown-leaf, grown_split, grown_kept, grown-Below,
  grown_child,
}
use redbase.Index.Tree.{kid, IsInner, Holds, IsTree}
use redbase.Record.Rid.{Rid}

module _ {K : Type 0} ⦃key : KeyOrder K⦄ (InUse : ℤ → Type 0) (x : K) (r : Rid)
    (nodes nodes' : ℤ → Node K) where
  Holds-plus :
      (height : ℕ) (p : ℤ) (c : ℕ) (ks : ℕ → K)
      → IsTurn x (nodes p) (nodes' p) c ks
      → Children InUse x r nodes nodes' height (nodes p) c
      → IsGrown InUse x r nodes nodes' height (kid (nodes p) c)
      → Plus x r (Holds nodes (suc height) p) (Holds nodes' (suc height) p)
  unfolding Holds
  Holds-plus height p c ks turn cases g k s = rw (turn.changed) (
    (λ (j, l, h). elim (grown_split InUse x r nodes nodes' height (nodes p) c cases g j k s l h) [
      | inl old ↦ inl (j, l, old)
      | inr (_, e, e') ↦ inr (e, e')
    ]),
    λ case. elim case [
      | inl (j, l, h) ↦
          (j, l, grown_kept InUse x r nodes nodes' height (nodes p) c cases g j k s l h)
      | inr new ↦ (c, turn.inside, (g.plus k s).1 (inr new))
    ],
  )

  IsApart-plus :
      (height : ℕ) (p : ℤ) (c : ℕ) (ks : ℕ → K)
      → IsTurn x (nodes p) (nodes' p) c ks
      → Children InUse x r nodes nodes' height (nodes p) c
      → IsGrown InUse x r nodes nodes' height (kid (nodes p) c)
      → IsApart nodes (suc height) p
      → IsApart nodes' (suc height) p
  unfolding IsApart
  IsApart-plus height p c ks turn cases g a =
      let down = grown-Below InUse x r nodes nodes' height (nodes p) c cases g in
      subst (λ n. IsSplit n p (Below nodes' height) (IsApart nodes' height)) (sym turn.changed)
        (record {
          own = λ j l b. a.own j l (down j p l b);
          apart = λ i j q li lj ne bi bj. a.apart i j q li lj ne (down i q li bi) (down j q lj bj);
          child =
              grown_child InUse x r nodes nodes' height (nodes p) c (IsApart nodes height)
                (IsApart nodes' height)
                (λ j same. IsApart-agree nodes nodes' height (kid (nodes p) j) same) cases g.apart
                a.child;
        })

  Below-plus :
      (height : ℕ) (p : ℤ) (c : ℕ) (ks : ℕ → K)
      → IsTurn x (nodes p) (nodes' p) c ks
      → Children InUse x r nodes nodes' height (nodes p) c
      → IsGrown InUse x r nodes nodes' height (kid (nodes p) c)
      → (q : ℤ) → Below nodes' (suc height) p q
      → Below nodes (suc height) p q
  unfolding Below
  Below-plus height p c ks turn cases g q (inl e) = inl e
  Below-plus height p c ks turn cases g q (inr (j, l, b)) =
      let l' = subst (λ n. j < n.num_keys) turn.changed l in
      let b' = subst (λ n. Below nodes' height (kid n j) q) turn.changed b in
      inr (j, l', grown-Below InUse x r nodes nodes' height (nodes p) c cases g j q l' b')

  IsTree-plus :
      (height : ℕ) (p : ℤ) (c : ℕ) (ks : ℕ → K)
      → IsTurn x (nodes p) (nodes' p) c ks
      → Children InUse x r nodes nodes' height (nodes p) c
      → IsGrown InUse x r nodes nodes' height (kid (nodes p) c)
      → IsTree InUse nodes (suc height) p
      → IsTree InUse nodes' (suc height) p
  unfolding IsTree
  IsTree-plus height p c ks turn cases g (u, inner) = (
    record {
      in_use = u.in_use;
      numbered = u.numbered;
      valid = rw (turn.changed) (record { synced = u.valid.synced; fits = u.valid.fits });
    },
    subst (λ n. IsInner n (IsTree InUse nodes' height) (Holds nodes' height)) (sym turn.changed)
        (IsInner_plus x r (nodes p) ks c (IsTree InUse nodes height) (IsTree InUse nodes' height)
          (Holds nodes height) (Holds nodes' height) turn.lifted turn.bound
          (grown_child InUse x r nodes nodes' height (nodes p) c (IsTree InUse nodes height)
            (IsTree InUse nodes' height)
            (λ j same. IsTree-agree InUse nodes nodes' height (kid (nodes p) j) same) cases g.tree
            inner.child)
          (grown_split InUse x r nodes nodes' height (nodes p) c cases g)
          (grown_kept InUse x r nodes nodes' height (nodes p) c cases g)
          ((g.plus x r).1 (inr (refl, refl))) inner),
  )

  -- Off the way to the leaf nothing has changed.
  abbrev pub Rest : ℕ → ℤ → Type 0
  Rest height p = (q : ℤ) → Below nodes height p q → ¬ OnWay x nodes height p q → nodes' q ≡ nodes q

  OnWay-Below :
      (height : ℕ) (p q : ℤ)
      → Route x r nodes nodes' height p
      → OnWay x nodes height p q
      → Below nodes height p q
  unfolding Route OnWay Below
  OnWay-Below zero p q route e = e
  OnWay-Below (suc height) p q route (inl e) = inl e
  OnWay-Below (suc height) p q (c, ks, turn, route) (inr w) = inr (
    c,
    turn.inside,
    OnWay-Below height (kid (nodes p) c) q route
        (subst (λ d. OnWay x nodes height d.0 q) turn.chosen w),
  )

  Rest-Children :
      (height : ℕ) (p : ℤ) (c : ℕ) (ks : ℕ → K)
      → IsTurn x (nodes p) (nodes' p) c ks
      → Route x r nodes nodes' height (kid (nodes p) c)
      → IsApart nodes (suc height) p
      → Rest (suc height) p
      → Children InUse x r nodes nodes' height (nodes p) c × Rest height (kid (nodes p) c)
  unfolding IsApart Below OnWay
  Rest-Children height p c ks turn route a rest = (
    λ j l. elim (lt-cases j c) [
      | inl h ↦ inr (still j l (λ e. omega arith), λ e. omega arith)
      | inr (inl e) ↦ inl e
      | inr (inr h) ↦ inr (still j l (λ e. omega arith), λ e. omega arith)
    ],
    λ q b off. rest q (inr (c, turn.inside, b)) (λ w. elim w [
      | inl e ↦ a.own c turn.inside (subst (λ q'. Below nodes height (kid (nodes p) c) q') e b)
      | inr w' ↦ off (on_child q w')
    ]),
  )
    where
      on_child :
          (q : ℤ)
          → OnWay x nodes height (child_for x (nodes p)).0 q
          → OnWay x nodes height (kid (nodes p) c) q
      on_child q = subst (λ d. OnWay x nodes height d.0 q) turn.chosen

      still :
          (j : ℕ) → j < (nodes p).num_keys → j ≢ c → Agrees nodes nodes' height (kid (nodes p) j)
      still j l ne q b = rest q (inr (j, l, b)) (λ w. elim w [
        | inl e ↦ a.own j l (subst (λ q'. Below nodes height (kid (nodes p) j) q') e b)
        | inr w' ↦
            a.apart j c q l turn.inside ne b
              (OnWay-Below height (kid (nodes p) c) q route (on_child q w'))
      ])

  child_IsTree :
      (height : ℕ) (p : ℤ) (c : ℕ)
      → c < (nodes p).num_keys
      → IsTree InUse nodes (suc height) p
      → IsTree InUse nodes height (kid (nodes p) c)
  unfolding IsTree
  child_IsTree height p c l (_, inner) = inner.child c l

  child_IsApart :
      (height : ℕ) (p : ℤ) (c : ℕ)
      → c < (nodes p).num_keys
      → IsApart nodes (suc height) p
      → IsApart nodes height (kid (nodes p) c)
  unfolding IsApart
  child_IsApart height p c l a = a.child c l

  pub grown :
      (height : ℕ) (p : ℤ)
      → IsTree InUse nodes height p
      → IsApart nodes height p
      → Route x r nodes nodes' height p
      → Rest height p
      → IsGrown InUse x r nodes nodes' height p
  unfolding Route
  grown zero p tree a route rest = IsGrown-leaf InUse x r nodes nodes' p tree route
  grown (suc height) p tree a (c, ks, turn, route) rest =
      let (cases, rest') = Rest-Children height p c ks turn route a rest in
      let g =
        grown height (kid (nodes p) c) (child_IsTree height p c turn.inside tree)
          (child_IsApart height p c turn.inside a) route rest' in
      record {
        tree = IsTree-plus height p c ks turn cases g tree;
        apart = IsApart-plus height p c ks turn cases g a;
        plus = Holds-plus height p c ks turn cases g;
        below = Below-plus height p c ks turn cases g;
      }
