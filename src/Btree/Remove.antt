-- ===== src/Btree/Remove.antt =====
-- `BtreeNode::Remove`, in its forms with a position and with a key.
use redbase.Base.{
  ℕ, zero, suc, ◌+◌, ◌-◌, ◌≤◌, ◌<◌, ◌≡◌, refl, arith, pos, negsuc, ◌==◌, if◌then◌else◌, erase_at,
  tabulate-erase_at, le-cases, le-false, inl, inr,
}
use redbase.Btree.Insert.{IsValid, SameFrame, IsSorted}
use redbase.Btree.Key.{KeyOrder}
use redbase.Btree.Node.{
  Node, entries, move_down, set_key, close_gap, get_num_keys, set_num_keys, remove_found, remove_at,
}
use redbase.Btree.Order.{Le_congr}

module _ {K : Type 0} where
  -- The arrays after `rounds` entries from `i + 1` on moved down by one.
  record IsClosed (n m : Node K) (rounds i : ℕ) : Type 0 where
    low : (j : ℕ) → j < i → (m.keys j ≡ n.keys j) × (m.rids j ≡ n.rids j)
    high :
        (j : ℕ) → i ≤ j → j < i + rounds → (m.keys j ≡ n.keys (suc j)) × (m.rids j ≡ n.rids (suc j))
    rest : (j : ℕ) → i + rounds ≤ j → (m.keys j ≡ n.keys j) × (m.rids j ≡ n.rids j)
    stored : m.stored_keys ≡ n.stored_keys
    counted : m.num_keys ≡ n.num_keys
    frame : SameFrame n m

  IsClosed-step :
      (n m : Node K) (rounds i : ℕ)
      → i < n.order
      → IsClosed (move_down i n) m rounds (suc i)
      → IsClosed n m (suc rounds) i
  unfolding move_down set_key
  IsClosed-step n m rounds i h s = record {
    low = λ j l. grind (arith, s.low j);
    high = λ j l l'. grind (arith, s.low j, s.high j);
    rest = λ j l. grind (arith, s.rest j);
    stored = ground (arith, s.stored);
    counted = ground (arith, s.counted);
    frame = ground (arith, s.frame);
  }

  move_down-order : (n : Node K) (i : ℕ) → (move_down i n).order ≡ n.order
  unfolding move_down set_key
  move_down-order n i = ground arith

  close_gap_lem :
      (rounds i : ℕ) (n : Node K)
      → i + rounds ≤ n.order
      → IsClosed n (close_gap rounds i n) rounds i
  unfolding close_gap
  close_gap_lem zero i n h = record {
    low = λ j l. (refl, refl);
    high = λ j l l'. absurd (omega arith);
    rest = λ j l. (refl, refl);
    stored = refl;
    counted = refl;
    frame = record { order = refl; page = refl; left = refl; right = refl };
  }
  close_gap_lem (suc rounds) i n h =
      IsClosed-step n _ rounds i (omega arith)
        (close_gap_lem rounds (suc i) (move_down i n) (omega (arith, move_down-order n i)))

  -- The node after the entry at `i` was taken out.
  pub record IsRemoved (n m : Node K) (i : ℕ) : Type 0 where
    pub low : (j : ℕ) → j < i → (m.keys j ≡ n.keys j) × (m.rids j ≡ n.rids j)
    pub high :
        (j : ℕ)
        → i ≤ j
        → suc j < n.num_keys
        → (m.keys j ≡ n.keys (suc j)) × (m.rids j ≡ n.rids (suc j))
    pub inside : i < n.num_keys
    pub counted : n.num_keys ≡ suc m.num_keys
    pub valid : IsValid m
    pub frame : SameFrame n m

  pub remove_found-IsRemoved :
      (i : ℕ) (n : Node K) → IsValid n → i < n.num_keys → IsRemoved n (remove_found i n).0 i
  unfolding remove_found get_num_keys set_num_keys
  remove_found-IsRemoved i n v h =
      let s = close_gap_lem (n.num_keys - 1 - i) i n (omega (arith, v.fits)) in
      record {
        low = s.low;
        high = λ j l l'. s.high j l (omega arith);
        inside = h;
        counted = omega (arith, s.stored, v.synced);
        valid = record {
          synced = refl;
          fits = omega (arith, s.stored, s.frame.order, v.synced, v.fits);
        };
        frame = record {
          order = s.frame.order;
          page = s.frame.page;
          left = s.frame.left;
          right = s.frame.right;
        };
      }

  remove_found-code :
      (i : ℕ) (n : Node K)
      → (remove_found i n).1 ≡ (if (remove_found i n).0.num_keys == 0 then negsuc 0 else pos 0)
  unfolding remove_found
  remove_found-code i n = refl

  pub IsRemoved-entries :
      (n m : Node K) (i : ℕ) → IsRemoved n m i → entries m ≡ erase_at i (entries n)
  IsRemoved-entries n m i s = rw s.counted (
      tabulate-erase_at m.num_keys i (λ j. (n.keys j, n.rids j)) (λ j. (m.keys j, m.rids j))
        (omega (arith, s.inside, s.counted)) (λ j l. ground (arith, s.low j l))
        (λ j l l'. ground (arith, s.high j l (omega (arith, s.counted)))))

  -- `Remove` at a position: a position past the last key is refused with -2 and nothing changes;
  -- any other takes its entry out and keeps the order of the rest, with the code -1 when the node
  -- became empty.
  pub remove_at_lem :
      (i : ℕ) (n : Node K)
      → IsValid n
      → ((n.num_keys ≤ i) → remove_at i n ≡ (n, negsuc 1))
        × (i < n.num_keys
            → IsRemoved n (remove_at i n).0 i
              × ((remove_at i n).1 ≡ (if n.num_keys == 1 then negsuc 0 else pos 0)))
  unfolding remove_at
  remove_at_lem i n v = (
    λ h. ground arith,
    λ h.
        let t = remove_found-IsRemoved i n v h in
        rw (le-false n.num_keys i h) (t, ground (arith, remove_found-code i n, t.counted)),
  )

module _ {K : Type 0} ⦃key : KeyOrder K⦄ where
  pub IsRemoved-IsSorted : (n m : Node K) (i : ℕ) → IsSorted n → IsRemoved n m i → IsSorted m
  IsRemoved-IsSorted n m i s t a b l l' = elim (le-cases a i) [
    | inl ha ↦ elim (le-cases b i) [
      | inl hb ↦ Le_congr (t.low a ha).0 (t.low b hb).0 (s a b l (omega (arith, t.counted)))
      | inr hb ↦
          Le_congr (t.low a ha).0 (t.high b hb (omega (arith, t.counted))).0
            (s a (suc b) (omega arith) (omega (arith, t.counted)))
    ]
    | inr ha ↦
        Le_congr (t.high a ha (omega (arith, t.counted))).0
          (t.high b (omega arith) (omega (arith, t.counted))).0
          (s (suc a) (suc b) (omega arith) (omega (arith, t.counted)))
  ]
