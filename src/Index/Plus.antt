-- ===== src/Index/Plus.antt =====
-- What one insertion makes of a tree whose leaf has room: `InsertEntry` of src/ix_indexhandle.cc
-- before any split. The leaf for the key gets the entry, and the nodes above it either stay or have
-- their largest key raised.
use redbase.Base.{
  ℕ, suc, ◌<◌, ◌≡◌, ◌≢◌, refl, ap, ◌∙◌, sym, subst, ℤ, inl, inr, ◌⊎◌, ◌↔◌, arith, true, lt-cases,
}
use redbase.Btree.Insert.{IsSorted}
use redbase.Btree.Key.{KeyOrder, eq0}
use redbase.Btree.Node.{Node}
use redbase.Btree.Order.{Le, Le_congr}
use redbase.Index.Tree.{kid, IsInner, Le_of_eq}
use redbase.Record.Rid.{Rid}

module _ {K : Type 0} ⦃key : KeyOrder K⦄ where
  -- The entries of the second set are those of the first and `(x, r)`.
  abbrev pub Plus : K → Rid → (K → Rid → Type 0) → (K → Rid → Type 0) → Type 0
  Plus x r In In' = (k : K) (s : Rid) → In' k s ↔ (In k s ⊎ ((k ≡ x) × (s ≡ r)))

  -- The keys of an inner node after an entry with key `x` came in below its entry `c`.
  pub record IsLifted (x : K) (n : Node K) (ks : ℕ → K) (c : ℕ) : Type 0 where
    pub rest : (j : ℕ) → j ≢ c → ks j ≡ n.keys j
    pub at :
        ((ks c ≡ n.keys c) × Le x (n.keys c))
        ⊎ ((ks c ≡ x) × (suc c ≡ n.num_keys) × Le (n.keys c) x)

  abbrev pub with_keys : Node K → (ℕ → K) → Node K
  with_keys n ks = record n { keys = ks }

  pub Le_same : (a b : K) → b ≡ a → Le a b
  Le_same a b e = Le_of_eq a b (ap (λ k. eq0 (key.cmp a k)) e ∙ key.cmp_refl a)

  lifted_at : (x : K) (n : Node K) (ks : ℕ → K) (c : ℕ) → IsLifted x n ks c → Le (n.keys c) (ks c)
  lifted_at x n ks c t = elim t.at [
    | inl (e, _) ↦ Le_same (n.keys c) (ks c) e
    | inr (e, _, l) ↦ Le_congr refl e l
  ]

  lifted_over : (x : K) (n : Node K) (ks : ℕ → K) (c : ℕ) → IsLifted x n ks c → Le x (ks c)
  lifted_over x n ks c t = elim t.at [
    | inl (e, l) ↦ Le_congr refl e l
    | inr (e, _, _) ↦ Le_same x (ks c) e
  ]

  -- No key goes down.
  lifted_up : (x : K) (n : Node K) (ks : ℕ → K) (c j : ℕ) → IsLifted x n ks c → Le (n.keys j) (ks j)
  lifted_up x n ks c j t = elim (lt-cases j c) [
    | inl h ↦ Le_same (n.keys j) (ks j) (t.rest j (λ e. omega arith))
    | inr (inl e) ↦ Le_congr (ap n.keys e) (ap ks e) (lifted_at x n ks c t)
    | inr (inr h) ↦ Le_same (n.keys j) (ks j) (t.rest j (λ e. omega arith))
  ]

  -- Only the last key may have changed.
  lifted_before :
      (x : K) (n : Node K) (ks : ℕ → K) (c j : ℕ)
      → IsLifted x n ks c
      → suc j < n.num_keys
      → ks j ≡ n.keys j
  lifted_before x n ks c j t l = elim (lt-cases j c) [
    | inl h ↦ t.rest j (λ e. omega arith)
    | inr (inl e) ↦ elim t.at [
      | inl (same, _) ↦ ap ks e ∙ same ∙ ap n.keys (sym e)
      | inr (_, last, _) ↦ absurd (omega arith)
    ]
    | inr (inr h) ↦ t.rest j (λ e. omega arith)
  ]

  lifted-IsSorted :
      (x : K) (n : Node K) (ks : ℕ → K) (c : ℕ)
      → IsLifted x n ks c
      → IsSorted n
      → IsSorted (with_keys n ks)
  lifted-IsSorted x n ks c t sorted i j l l' =
      key.cmp_trans _ _ _
        (Le_congr (lifted_before x n ks c i t (omega arith)) refl (sorted i j l l'))
        (lifted_up x n ks c j t)

  -- An inner node over children of which one, at `c`, has got the entry.
  pub IsInner_plus :
      (x : K) (r : Rid) (n : Node K) (ks : ℕ → K) (c : ℕ) (Sub Sub' : ℤ → Type 0)
      (In In' : ℤ → K → Rid → Type 0)
      → IsLifted x n ks c
      → ((j : ℕ) → suc j ≡ c → Le (n.keys j) x)
      → ((j : ℕ) → j < n.num_keys → Sub' (kid n j))
      → ((j : ℕ) (k : K) (s : Rid)
          → j < n.num_keys
          → In' (kid n j) k s
          → In (kid n j) k s ⊎ ((j ≡ c) × (k ≡ x) × (s ≡ r)))
      → ((j : ℕ) (k : K) (s : Rid) → j < n.num_keys → In (kid n j) k s → In' (kid n j) k s)
      → In' (kid n c) x r
      → IsInner n Sub In
      → IsInner (with_keys n ks) Sub' In'
  IsInner_plus x r n ks c Sub Sub' In In' t bound sub split kept new inner = record {
    sorted = lifted-IsSorted x n ks c t inner.sorted;
    nonempty = inner.nonempty;
    child = sub;
    upper = λ j k s l h. elim (split j k s l h) [
      | inl old ↦ key.cmp_trans _ _ _ (inner.upper j k s l old) (lifted_up x n ks c j t)
      | inr (e, e', _) ↦ Le_congr e' (ap ks e) (lifted_over x n ks c t)
    ];
    lower = λ j k s l h. elim (split (suc j) k s l h) [
      | inl old ↦ Le_congr (lifted_before x n ks c j t l) refl (inner.lower j k s l old)
      | inr (e, e', _) ↦ Le_congr (lifted_before x n ks c j t l) e' (bound j e)
    ];
    present = λ j l.
        let (k, s, h, e) = inner.present j l in
        let stays : ks j ≡ n.keys j
            → (k' : K) × (s' : Rid) × In' (kid n j) k' s' × (eq0 (key.cmp (ks j) k') ≡ true) =
          λ same. (k, s, kept j k s l h, ap (λ a. eq0 (key.cmp a k)) same ∙ e) in
        elim (lt-cases j c) [
          | inl h' ↦ stays (t.rest j (λ e'. omega arith))
          | inr (inl e') ↦ elim t.at [
            | inl (same, _) ↦ stays (ap ks e' ∙ same ∙ ap n.keys (sym e'))
            | inr (raised, _, _) ↦ (
              x,
              r,
              subst (λ i. In' (kid n i) x r) (sym e') new,
              ap (λ i. eq0 (key.cmp (ks i) x)) e'
                  ∙ ap (λ a. eq0 (key.cmp a x)) raised
                  ∙ key.cmp_refl x,
            )
          ]
          | inr (inr h') ↦ stays (t.rest j (λ e'. omega arith))
        ];
  }
