-- ===== src/Btree/Position.antt =====
-- `BtreeNode::FindKeyPosition`: where a search goes on, on ascending keys.
use redbase.Base.{
  ℕ, zero, suc, ◌-◌, ◌≤◌, ◌<◌, ◌≡◌, refl, true, arith, pos, ◌⊎◌, inl, inr, ap, ◌∙◌, lt-cases,
  Bool-cases, if◌then◌else◌,
}
use redbase.Btree.Insert.{IsSorted}
use redbase.Btree.Key.{KeyOrder, eq0, gt0, lt0}
use redbase.Btree.Node.{Node, get_key, position_from, find_key_position}
use redbase.Btree.Order.{Le, Le_congr}

module _ {K : Type 0} ⦃key : KeyOrder K⦄ where
  -- The answer `p` of a search of the entries below `count`: the rightmost entry with an equal key,
  -- or, where there is none, the number of smaller keys.
  pub record IsPosition (x : K) (n : Node K) (count p : ℕ) : Type 0 where
    pub le : p ≤ count
    pub above : (j : ℕ) → p < j → j < count → lt0 (key.cmp x (n.keys j)) ≡ true
    pub at :
        ((p < count) × (eq0 (key.cmp x (n.keys p)) ≡ true))
        ⊎ ((p < count → lt0 (key.cmp x (n.keys p)) ≡ true)
            × ((j : ℕ) → suc j ≡ p → gt0 (key.cmp x (n.keys j)) ≡ true))

  position_step :
      (x : K) (n : Node K) (i : ℕ)
      → i < n.num_keys
      → position_from x n (suc i) ≡ (
          if eq0 (key.cmp x (n.keys i))
          then pos i
          else (if gt0 (key.cmp x (n.keys i)) then pos (suc i) else position_from x n i))
  unfolding position_from get_key
  position_step x n i h = ground arith

  IsPosition-gt :
      (x : K) (n : Node K) (i : ℕ)
      → gt0 (key.cmp x (n.keys i)) ≡ true
      → IsPosition x n (suc i) (suc i)
  IsPosition-gt x n i g = record {
    le = omega arith;
    above = λ j l l'. absurd (omega arith);
    at =
        inr (
          λ l. absurd (omega arith),
          λ j e. ap (λ k. gt0 (key.cmp x (n.keys k))) (omega arith) ∙ g,
        );
  }

  IsPosition-lt :
      (x : K) (n : Node K) (i p : ℕ)
      → lt0 (key.cmp x (n.keys i)) ≡ true
      → IsPosition x n i p
      → IsPosition x n (suc i) p
  IsPosition-lt x n i p less s = record {
    le = omega (arith, s.le);
    above = λ j l l'. elim (lt-cases j i) [
      | inl h ↦ s.above j l h
      | inr (inl e) ↦ ap (λ k. lt0 (key.cmp x (n.keys k))) e ∙ less
      | inr (inr h) ↦ absurd (omega arith)
    ];
    at = elim s.at [
      | inl (l, e) ↦ inl (omega arith, e)
      | inr (here, before) ↦ inr (
        λ l. elim (lt-cases p i) [
          | inl h ↦ here h
          | inr (inl e) ↦ ap (λ k. lt0 (key.cmp x (n.keys k))) e ∙ less
          | inr (inr h) ↦ absurd (omega arith)
        ],
        before,
      )
    ];
  }

  position_from_lem :
      (x : K) (n : Node K) (count : ℕ)
      → count ≤ n.num_keys
      → (p : ℕ) × (position_from x n count ≡ pos p) × IsPosition x n count p
  position_from_lem x n zero h =
      unfold position_from in
      (
        0,
        refl,
        record {
          le = omega arith;
          above = λ j l l'. absurd (omega arith);
          at = inr (λ l. absurd (omega arith), λ j e. absurd (omega arith));
        },
      )
  position_from_lem x n (suc i) h =
      rw (position_step x n i h) (elim (Bool-cases (eq0 (key.cmp x (n.keys i)))) [
        | inl e ↦ (
          i,
          ground arith,
          record {
            le = omega arith;
            above = λ j l l'. absurd (omega arith);
            at = inl (omega arith, e);
          },
        )
        | inr e ↦ elim (Bool-cases (gt0 (key.cmp x (n.keys i)))) [
          | inl g ↦ (suc i, ground arith, IsPosition-gt x n i g)
          | inr g ↦
              let (p, found, s) = position_from_lem x n i (omega arith) in
              (p, ground arith, IsPosition-lt x n i p (ground arith) s)
        ]
      ])

  Le_of_eq : (a b : K) → eq0 (key.cmp b a) ≡ true → Le a b
  Le_of_eq a b e = ground (arith, key.cmp_flip b a)

  Le_of_gt : (a b : K) → gt0 (key.cmp b a) ≡ true → Le a b
  Le_of_gt a b e = ground (arith, key.cmp_flip b a)

  -- On ascending keys no key in front of the answer is larger than the one that is looked for.
  IsPosition-below :
      (x : K) (n : Node K) (p j : ℕ)
      → IsSorted n
      → IsPosition x n n.num_keys p
      → j < p
      → Le (n.keys j) x
  IsPosition-below x n p j sorted s l = elim s.at [
    | inl (inside, e) ↦ key.cmp_trans _ _ _ (sorted j p l inside) (Le_of_eq (n.keys p) x e)
    | inr (_, before) ↦
        let back : suc (p - 1) ≡ p = omega arith in
        let last = Le_of_gt (n.keys (p - 1)) x (before (p - 1) back) in
        elim (lt-cases j (p - 1)) [
          | inl h ↦ key.cmp_trans _ _ _ (sorted j (p - 1) h (omega (arith, s.le))) last
          | inr (inl e) ↦ Le_congr (ap n.keys e) refl last
          | inr (inr h) ↦ absurd (omega arith)
        ]
  ]

  -- On ascending keys `FindKeyPosition` never answers with the error code: it is the rightmost entry
  -- with an equal key if there is one, and otherwise the place behind the smaller keys; no key
  -- before it is larger, and every key after it is.
  pub find_key_position_lem :
      (x : K) (n : Node K)
      → IsSorted n
      → (p : ℕ) × (find_key_position x n ≡ pos p)
        × IsPosition x n n.num_keys p
        × ((j : ℕ) → j < p → Le (n.keys j) x)
  unfolding find_key_position
  find_key_position_lem x n sorted =
      let (p, found, s) = position_from_lem x n n.num_keys (omega arith) in
      (p, found, s, λ j l. IsPosition-below x n p j sorted s l)
