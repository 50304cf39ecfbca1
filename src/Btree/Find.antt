-- ===== src/Btree/Find.antt =====
-- The searches of a node: `FindKey`, `FindKeyPosition`, `FindAddr`, and `Remove` with a key.
use redbase.Base.{
  ℕ, zero, suc, ◌-◌, ◌≤◌, ◌<◌, ◌≡◌, refl, Bool, true, false, ◌&&◌, ◌||◌, arith, pos, negsuc, ◌⊎◌,
  inl, inr, erase_at, erase_at-insert_at, length-tabulate, ℤ, ap, ◌∙◌, sym, lt-cases, if◌then◌else◌,
}
use redbase.Btree.Insert.{IsValid, IsPlace, IsInserted, IsInserted-entries, insert_lem}
use redbase.Btree.Key.{KeyOrder, eq0, lt0-ne0}
use redbase.Btree.Node.{
  Node, entries, get_key, find_from, find_key, rid_at, find_addr, insert, remove,
}
use redbase.Btree.Remove.{IsRemoved, IsRemoved-entries, remove_found-IsRemoved}
use redbase.Record.Rid.{Rid, null_rid, rid_eq}

module _ {K : Type 0} ⦃key : KeyOrder K⦄ where
  -- Entry `j` is one that `FindKey` looks for: its key is equal, and its identifier too if one is
  -- given.
  abbrev pub matches : K → Rid → Node K → ℕ → Bool
  matches x r n j = eq0 (key.cmp x (n.keys j)) && (rid_eq r null_rid || rid_eq (n.rids j) r)

  -- The answer of a search of the entries below `count` from the right.
  abbrev pub Finds : K → Rid → Node K → ℕ → ℤ → Type 0
  Finds x r n count (pos i) =
      (i < count)
      × (matches x r n i ≡ true)
      × ((j : ℕ) → i < j → j < count → matches x r n j ≡ false)
  Finds x r n count (negsuc c) = (c ≡ 0) × ((j : ℕ) → j < count → matches x r n j ≡ false)

  find_step :
      (x : K) (r : Rid) (n : Node K) (i : ℕ)
      → i < n.num_keys
      → find_from x r n (suc i) ≡ (if matches x r n i then pos i else find_from x r n i)
  unfolding find_from get_key
  find_step x r n i h = ground arith

  Finds-miss :
      (x : K) (r : Rid) (n : Node K) (i : ℕ) (z : ℤ)
      → matches x r n i ≡ false
      → Finds x r n i z
      → Finds x r n (suc i) z
  Finds-miss x r n i (pos p) miss (l, m, above) = (
    omega arith,
    m,
    λ j l l'. elim (lt-cases j i) [
      | inl h ↦ above j l h
      | inr (inl e) ↦ ap (matches x r n) e ∙ miss
      | inr (inr h) ↦ absurd (omega arith)
    ],
  )
  Finds-miss x r n i (negsuc c) miss (e, above) = (
    e,
    λ j l. elim (lt-cases j i) [
      | inl h ↦ above j h
      | inr (inl e) ↦ ap (matches x r n) e ∙ miss
      | inr (inr h) ↦ absurd (omega arith)
    ],
  )

  Finds-step :
      (x : K) (r : Rid) (n : Node K) (i : ℕ) (z : ℤ) (b : Bool)
      → matches x r n i ≡ b
      → Finds x r n i z
      → Finds x r n (suc i) (if b then pos i else z)
  Finds-step x r n i z true hit s = (omega arith, hit, λ j l l'. absurd (omega arith))
  Finds-step x r n i z false miss s = Finds-miss x r n i z miss s

  find_from_lem :
      (x : K) (r : Rid) (n : Node K) (count : ℕ)
      → count ≤ n.num_keys
      → Finds x r n count (find_from x r n count)
  find_from_lem x r n zero h = unfold find_from in (refl, λ j l. absurd (omega arith))
  find_from_lem x r n (suc i) h =
      rw (find_step x r n i h)
        (Finds-step x r n i _ (matches x r n i) refl (find_from_lem x r n i (omega arith)))

  -- `FindKey` returns the rightmost entry with an equal key, and with the given identifier if there
  -- is one; it returns -1 exactly when no entry is such.
  pub find_key-Finds : (x : K) (r : Rid) (n : Node K) → Finds x r n n.num_keys (find_key x r n)
  unfolding find_key
  find_key-Finds x r n = find_from_lem x r n n.num_keys (omega arith)

  -- An entry with the answer's properties is the answer.
  pub Finds-unique :
      (x : K) (r : Rid) (n : Node K) (count i : ℕ) (z : ℤ)
      → Finds x r n count (pos i)
      → Finds x r n count z
      → z ≡ pos i
  Finds-unique x r n count i (negsuc c) (l, m, _) (_, none_at) = absurd (cc (none_at i l))
  Finds-unique x r n count i (pos k) (l, m, above) (l', m', above') = elim (lt-cases i k) [
    | inl h ↦ absurd (cc (above k h l'))
    | inr (inl e) ↦ ap pos (sym e)
    | inr (inr h) ↦ absurd (cc (above' i h l))
  ]

  pub matches-null :
      (x : K) (n : Node K) (j : ℕ) (b : Bool)
      → eq0 (key.cmp x (n.keys j)) ≡ b
      → matches x null_rid n j ≡ b
  unfolding rid_eq
  matches-null x n j b h = ground arith

  -- The place where an entry came in is the rightmost one with an equal key.
  IsInserted-Finds :
      (x : K) (r : Rid) (n m : Node K) (i : ℕ)
      → IsPlace x n n.num_keys i
      → IsInserted x r n m i
      → Finds x null_rid m m.num_keys (pos i)
  IsInserted-Finds x r n m i p t = (
    omega (arith, t.le, t.counted),
    matches-null x m i true (ap (λ k. eq0 (key.cmp x k)) t.here.0 ∙ key.cmp_refl x),
    λ j l l'.
        let e : j ≡ suc (j - 1) = omega arith in
        let same : m.keys j ≡ n.keys (j - 1) =
          ap m.keys e ∙ (t.high (j - 1) (omega arith) (omega (arith, t.counted))).0 in
        matches-null x m j false (
          ap (λ k. eq0 (key.cmp x k)) same
          ∙ lt0-ne0 _ (p.larger (j - 1) (omega arith) (omega (arith, t.counted)))),
  )

  -- After an insertion the key is found at the new entry, and its address is the new identifier.
  pub find_key-insert :
      (x : K) (r : Rid) (n : Node K)
      → IsValid n
      → n.num_keys < n.order
      → (i : ℕ) × IsPlace x n n.num_keys i
        × IsInserted x r n (insert x r n).0 i
        × (find_key x null_rid (insert x r n).0 ≡ pos i)
        × (find_addr x (insert x r n).0 ≡ r)
  unfolding find_addr rid_at
  find_key-insert x r n v room =
      let (i, place, t, _) = insert_lem x r n v room in
      let found =
        Finds-unique x null_rid (insert x r n).0 _ i _
          (IsInserted-Finds x r n (insert x r n).0 i place t)
          (find_key-Finds x null_rid (insert x r n).0) in
      (i, place, t, found, ap (rid_at (insert x r n).0) found ∙ t.here.1)

  pub matches-null_false :
      (x : K) (n : Node K) (j : ℕ)
      → matches x null_rid n j ≡ false
      → eq0 (key.cmp x (n.keys j)) ≡ false
  unfolding rid_eq
  matches-null_false x n j h = ground arith

  -- The two outcomes of `Remove` with a key.
  abbrev pub Removes : K → Node K → Type 0
  Removes x n =
      (((j : ℕ) → j < n.num_keys → eq0 (key.cmp x (n.keys j)) ≡ false)
        × (remove x n ≡ (n, negsuc 1)))
      ⊎ ((i : ℕ) × (find_key x null_rid n ≡ pos i) × IsRemoved n (remove x n).0 i)

  remove_by :
      (x : K) (n : Node K) (z : ℤ)
      → IsValid n
      → find_key x null_rid n ≡ z
      → Finds x null_rid n n.num_keys z
      → Removes x n
  unfolding remove
  remove_by x n (pos i) v e (l, _, _) = inr (i, e, rw (e, remove) (remove_found-IsRemoved i n v l))
  remove_by x n (negsuc c) v e (_, none_at) =
      inl (λ j l. matches-null_false x n j (none_at j l), rw (e, remove))

  -- `Remove` with a key: a key that is not there is answered by -2 and changes nothing; otherwise
  -- the rightmost entry with the key goes.
  pub remove_lem : (x : K) (n : Node K) → IsValid n → Removes x n
  remove_lem x n v = remove_by x n (find_key x null_rid n) v refl (find_key-Finds x null_rid n)

  -- To remove a key that was just inserted gives the old entries back, in the old order.
  pub remove-insert :
      (x : K) (r : Rid) (n : Node K)
      → IsValid n
      → n.num_keys < n.order
      → entries (remove x (insert x r n).0).0 ≡ entries n
  unfolding remove
  remove-insert x r n v room =
      let (i, place, t, found, _) = find_key-insert x r n v room in
      rw (found, remove)
        (IsRemoved-entries (insert x r n).0 _ i
            (remove_found-IsRemoved i _ t.valid (omega (arith, t.le, t.counted)))
          ∙ ap (erase_at i) (IsInserted-entries t)
          ∙ erase_at-insert_at i (x, r) (entries n) (omega (arith, length-tabulate {0}, t.le)))
