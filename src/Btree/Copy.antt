-- ===== src/Btree/Copy.antt =====
-- The loops that `BtreeNode::Split` and `BtreeNode::Merge` share: entries inserted into another
-- node one by one, and entries removed at one position.
use redbase.Base.{
  ℕ, zero, suc, ◌+◌, ◌-◌, ◌≤◌, ◌<◌, ◌≡◌, refl, arith, pos, inl, inr, ap, ◌∙◌, lt-cases,
}
use native.Mathlib.Nat.{add-zero}
use mathlib.Core.Path.{subst}
use redbase.Btree.Insert.{IsValid, SameFrame, IsSorted, IsPlace, IsInserted, insert_lem}
use redbase.Btree.Key.{KeyOrder}
use redbase.Btree.Node.{Node, insert, remove_at, copy_entries, drop_entries}
use redbase.Btree.Order.{Le, Le_congr}
use redbase.Btree.Remove.{remove_at_lem}

module _ {K : Type 0} where
  -- `m` is `dst` with `rounds` entries of `src` from `i` on behind its own.
  pub record IsExtended (src dst m : Node K) (i rounds : ℕ) : Type 0 where
    pub counted : m.num_keys ≡ dst.num_keys + rounds
    pub own : (j : ℕ) → j < dst.num_keys → (m.keys j ≡ dst.keys j) × (m.rids j ≡ dst.rids j)
    pub new :
        (j : ℕ)
        → j < rounds
        → (m.keys (dst.num_keys + j) ≡ src.keys (i + j))
          × (m.rids (dst.num_keys + j) ≡ src.rids (i + j))
    pub valid : IsValid m
    pub frame : SameFrame dst m

  -- `m` is `n` without the entries from `i` on.
  pub record IsCut (n m : Node K) (i : ℕ) : Type 0 where
    pub counted : m.num_keys ≡ i
    pub own : (j : ℕ) → j < i → (m.keys j ≡ n.keys j) × (m.rids j ≡ n.rids j)
    pub valid : IsValid m
    pub frame : SameFrame n m

  pub SameFrame-trans : (a b c : Node K) → SameFrame a b → SameFrame b c → SameFrame a c
  SameFrame-trans a b c s t = record {
    order = t.order ∙ s.order;
    page = t.page ∙ s.page;
    left = t.left ∙ s.left;
    right = t.right ∙ s.right;
  }

  drop_step :
      (rounds i : ℕ) (n : Node K)
      → IsValid n
      → i < n.num_keys
      → drop_entries (suc rounds) i n ≡ drop_entries rounds i (remove_at i n).0
  unfolding drop_entries
  drop_step rounds i n v h = ground (arith, ((remove_at_lem i n v).1 h).1)

  pub drop_entries-IsCut :
      (rounds i : ℕ) (n : Node K)
      → IsValid n
      → i + rounds ≡ n.num_keys
      → IsCut n (drop_entries rounds i n).0 i × ((drop_entries rounds i n).1 ≡ pos 0)
  drop_entries-IsCut zero i n v h =
      unfold drop_entries in
      (
        record {
          counted = omega arith;
          own = λ j l. (refl, refl);
          valid = v;
          frame = record { order = refl; page = refl; left = refl; right = refl };
        },
        refl,
      )
  drop_entries-IsCut (suc rounds) i n v h =
      let t = ((remove_at_lem i n v).1 (omega arith)).0 in
      let (cut, code) =
        drop_entries-IsCut rounds i (remove_at i n).0 t.valid (omega (arith, t.counted)) in
      rw (drop_step rounds i n v (omega arith)) (
        record {
          counted = cut.counted;
          own = λ j l. ((cut.own j l).0 ∙ (t.low j l).0, (cut.own j l).1 ∙ (t.low j l).1);
          valid = cut.valid;
          frame = SameFrame-trans _ _ _ t.frame cut.frame;
        },
        code,
      )

  IsExtended-step :
      (src dst d m : Node K) (i rounds : ℕ)
      → IsInserted (src.keys i) (src.rids i) dst d dst.num_keys
      → IsExtended src d m (suc i) rounds
      → IsExtended src dst m i (suc rounds)
  IsExtended-step src dst d m i rounds t e = record {
    counted = omega (arith, t.counted, e.counted);
    own = λ j l.
        let (k, r) = e.own j (omega (arith, t.counted)) in (k ∙ (t.low j l).0, r ∙ (t.low j l).1);
    new = new;
    valid = e.valid;
    frame = SameFrame-trans _ _ _ t.frame e.frame;
  }
    where
      new :
          (j : ℕ)
          → j < suc rounds
          → (m.keys (dst.num_keys + j) ≡ src.keys (i + j))
            × (m.rids (dst.num_keys + j) ≡ src.rids (i + j))
      new zero l =
          let (k, r) = e.own dst.num_keys (omega (arith, t.counted)) in
          rw (add-zero, add-zero) (k ∙ t.here.0, r ∙ t.here.1)
      new (suc j) l =
          let (k, r) = e.new j (omega arith) in
          let left : dst.num_keys + suc j ≡ d.num_keys + j = omega (arith, t.counted) in
          let right : i + suc j ≡ suc i + j = omega arith in rw (left, right) (k, r)

module _ {K : Type 0} ⦃key : KeyOrder K⦄ where
  -- A key that is not smaller than the last goes to the end.
  last_place :
      (x : K) (n : Node K) (i : ℕ)
      → ((j : ℕ) → suc j ≡ n.num_keys → Le (n.keys j) x)
      → IsPlace x n n.num_keys i
      → i ≡ n.num_keys
  last_place x n i h p = elim (lt-cases i n.num_keys) [
    | inl l ↦
        let back : suc (n.num_keys - 1) ≡ n.num_keys = omega arith in
        absurd (
          ground (
            arith,
            h (n.num_keys - 1) back,
            p.larger (n.num_keys - 1) (omega arith) (omega arith),
            key.cmp_flip x (n.keys (n.num_keys - 1)),
          ))
    | inr (inl e) ↦ e
    | inr (inr l) ↦ absurd (omega (arith, p.le))
  ]

  pub copy_step :
      (rounds i : ℕ) (src dst : Node K)
      → (insert (src.keys i) (src.rids i) dst).1 ≡ pos 0
      → copy_entries (suc rounds) i src dst
        ≡ copy_entries rounds (suc i) src (insert (src.keys i) (src.rids i) dst).0
  unfolding copy_entries
  copy_step rounds i src dst h = rw (copy_entries, h)

  -- Ascending entries that are not smaller than those of the target are appended, and no insertion
  -- is refused.
  pub copy_entries-IsExtended :
      (rounds i : ℕ) (src dst : Node K)
      → IsSorted src
      → i + rounds ≤ src.num_keys
      → IsValid dst
      → dst.num_keys + rounds ≤ dst.order
      → ((j : ℕ) → suc j ≡ dst.num_keys → 0 < rounds → Le (dst.keys j) (src.keys i))
      → IsExtended src dst (copy_entries rounds i src dst).0 i rounds
        × ((copy_entries rounds i src dst).1 ≡ pos 0)
  copy_entries-IsExtended zero i src dst s inside v room last =
      unfold copy_entries in
      (
        record {
          counted = omega arith;
          own = λ j l. (refl, refl);
          new = λ j l. absurd (omega arith);
          valid = v;
          frame = record { order = refl; page = refl; left = refl; right = refl };
        },
        refl,
      )
  copy_entries-IsExtended (suc rounds) i src dst s inside v room last =
      let (p, place, t, code) = insert_lem (src.keys i) (src.rids i) dst v (omega arith) in
      let end = last_place (src.keys i) dst p (λ j e. last j e (omega arith)) place in
      let u =
        subst
          (λ q. IsInserted (src.keys i) (src.rids i) dst (insert (src.keys i) (src.rids i) dst).0 q)
          end t in
      let (more, ok) =
        copy_entries-IsExtended rounds (suc i) src (insert (src.keys i) (src.rids i) dst).0 s
          (omega arith) t.valid (omega (arith, t.counted, t.frame.order))
          (λ j e left.
            Le_congr
              (ap (insert (src.keys i) (src.rids i) dst).0.keys (omega (arith, t.counted))
                ∙ u.here.0)
              refl (s i (suc i) (omega arith) (omega arith))) in
      rw (copy_step rounds i src dst code) (IsExtended-step src dst _ _ i rounds u more, ok)
