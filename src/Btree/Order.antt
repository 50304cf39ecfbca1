-- ===== src/Btree/Order.antt =====
-- The order of the entries of a node: what `BtreeNode::Insert` keeps, and what the code's own check
-- `isSorted` covers.
use redbase.Base.{
  ℕ, zero, suc, ◌+◌, ◌-◌, ◌≤◌, ◌<◌, ◌≡◌, refl, true, arith, inl, inr, lt-cases, update, ap, ◌∙◌,
  ◌⊎◌,
}
use redbase.Btree.Insert.{IsValid, IsSorted, IsPlace, IsInserted, insert_lem}
use redbase.Btree.Key.{KeyOrder, ge0, lt0, le0}
use redbase.Btree.Node.{Node, insert, sorted_from, is_sorted}
use redbase.Record.Rid.{Rid}

module _ {K : Type 0} ⦃key : KeyOrder K⦄ where
  abbrev pub Le : K → K → Type 0
  Le a b = le0 (key.cmp a b) ≡ true

  pub Le_congr : {a b a' b' : K} → a ≡ a' → b ≡ b' → Le a' b' → Le a b
  Le_congr p q h = ap (λ c. le0 c) (cc) ∙ h

  pub Le_of_ge : (a b : K) → ge0 (key.cmp b a) ≡ true → Le a b
  Le_of_ge a b h = ground (arith, key.cmp_flip b a)

  pub Le_of_lt : (a b : K) → lt0 (key.cmp a b) ≡ true → Le a b
  Le_of_lt a b h = ground arith

  -- In an ascending node no key in front of the place is larger than the new one.
  below :
      (x : K) (n : Node K) (i j : ℕ)
      → IsSorted n
      → IsPlace x n n.num_keys i
      → j < i
      → Le (n.keys j) x
  below x n zero j s p l = absurd (omega arith)
  below x n (suc i) j s p l =
      let last = Le_of_ge (n.keys i) x (p.bound i refl) in
      elim (lt-cases j i) [
        | inl h ↦ key.cmp_trans _ _ _ (s j i h (omega (arith, p.le))) last
        | inr (inl e) ↦ Le_congr (ap n.keys e) refl last
        | inr (inr h) ↦ absurd (omega arith)
      ]

  -- Where the key at `j` comes from.
  pub origin :
      (x : K) (r : Rid) (n m : Node K) (i j : ℕ)
      → IsInserted x r n m i
      → j < m.num_keys
      → ((j < i) × (m.keys j ≡ n.keys j))
        ⊎ ((j ≡ i) × (m.keys j ≡ x))
        ⊎ ((k : ℕ) × (i ≤ k) × (j ≡ suc k) × (k < n.num_keys) × (m.keys j ≡ n.keys k))
  origin x r n m i j t l = elim (lt-cases j i) [
    | inl h ↦ inl (h, (t.low j h).0)
    | inr (inl e) ↦ inr (inl (e, ap m.keys e ∙ t.here.0))
    | inr (inr h) ↦
        let back : j ≡ suc (j - 1) = omega arith in
        inr (
          inr (
            j - 1,
            omega arith,
            back,
            omega (arith, t.counted),
            ap m.keys back ∙ (t.high (j - 1) (omega arith) (omega (arith, t.counted))).0,
          ))
  ]

  pub IsInserted-IsSorted :
      (x : K) (r : Rid) (n m : Node K) (i : ℕ)
      → IsSorted n
      → IsPlace x n n.num_keys i
      → IsInserted x r n m i
      → IsSorted m
  IsInserted-IsSorted x r n m i s p t a b l l' = elim (origin x r n m i a t (omega arith)) [
    | inl (ha, ea) ↦ elim (origin x r n m i b t l') [
      | inl (hb, eb) ↦ Le_congr ea eb (s a b l (omega (arith, t.le)))
      | inr (inl (hb, eb)) ↦ Le_congr ea eb (below x n i a s p ha)
      | inr (inr (k, le, e, lk, eb)) ↦ Le_congr ea eb (s a k (omega arith) lk)
    ]
    | inr (inl (ha, ea)) ↦ elim (origin x r n m i b t l') [
      | inl (hb, eb) ↦ absurd (omega arith)
      | inr (inl (hb, eb)) ↦ absurd (omega arith)
      | inr (inr (k, le, e, lk, eb)) ↦ Le_congr ea eb (Le_of_lt x (n.keys k) (p.larger k le lk))
    ]
    | inr (inr (j, lj, ej, kj, ea)) ↦ elim (origin x r n m i b t l') [
      | inl (hb, eb) ↦ absurd (omega arith)
      | inr (inl (hb, eb)) ↦ absurd (omega arith)
      | inr (inr (k, le, e, lk, eb)) ↦ Le_congr ea eb (s j k (omega arith) lk)
    ]
  ]

  -- The insertion of an entry keeps the keys in ascending order.
  pub insert-IsSorted :
      (x : K) (r : Rid) (n : Node K)
      → IsValid n
      → n.num_keys < n.order
      → IsSorted n
      → IsSorted (insert x r n).0
  insert-IsSorted x r n v room s =
      let (i, place, done, _) = insert_lem x r n v room in
      IsInserted-IsSorted x r n _ i s place done

  sorted_from-true :
      (rounds i : ℕ) (n : Node K)
      → IsSorted n
      → i + rounds < n.num_keys
      → sorted_from rounds i n ≡ true
  unfolding sorted_from
  sorted_from-true zero i n s h = refl
  sorted_from-true (suc rounds) i n s h =
      ground (arith, s i (suc i), sorted_from-true rounds (suc i) n s)

  -- The code's assertion never fails on an ascending node.
  pub IsSorted-is_sorted : (n : Node K) → IsSorted n → is_sorted n ≡ true
  unfolding is_sorted
  IsSorted-is_sorted n s = elim (lt-cases n.num_keys 2) [
    | inl h ↦ let e : n.num_keys - 2 ≡ 0 = omega arith in rw e refl
    | inr (inl h) ↦ let e : n.num_keys - 2 ≡ 0 = omega arith in rw e refl
    | inr (inr h) ↦ sorted_from-true (n.num_keys - 2) 0 n s (omega arith)
  ]

  sorted_from-congr :
      (rounds i : ℕ) (n m : Node K)
      → ((j : ℕ) → j ≤ i + rounds → m.keys j ≡ n.keys j)
      → sorted_from rounds i m ≡ sorted_from rounds i n
  unfolding sorted_from
  sorted_from-congr zero i n m h = refl
  sorted_from-congr (suc rounds) i n m h = ground (
    arith,
    h i (omega arith),
    h (suc i) (omega arith),
    sorted_from-congr rounds (suc i) n m (λ j l. h j (omega arith)),
  )

  -- `isSorted` never reads the last of two or more keys: whatever it is, the answer is the same.
  pub is_sorted-ignores_last :
      (x : K) (n : Node K)
      → 2 ≤ n.num_keys
      → is_sorted (record n { keys = update n.keys (n.num_keys - 1) x }) ≡ is_sorted n
  unfolding is_sorted
  is_sorted-ignores_last x n h = sorted_from-congr (n.num_keys - 2) 0 n _ (λ j l. grind arith)
