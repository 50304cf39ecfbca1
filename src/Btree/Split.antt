-- ===== src/Btree/Split.antt =====
-- `BtreeNode::Split`: the upper half of the entries moves to a fresh right neighbour.
use redbase.Base.{
  ℕ, ◌+◌, ◌-◌, ◌/◌, ◌≤◌, ◌<◌, ◌≡◌, refl, arith, pos, ap, ap₂, ◌∙◌, ◌++◌, tabulate-append,
  tabulate-congr, sym, ltb-false, ℤ,
}
use redbase.Btree.Copy.{IsExtended, IsCut, copy_entries-IsExtended, drop_entries-IsCut}
use redbase.Btree.Insert.{get_num_keys_valid, IsValid, IsSorted}
use redbase.Btree.Key.{KeyOrder}
use redbase.Btree.Node.{Node, entries, split, copy_entries, drop_entries}
use redbase.Btree.Order.{Le_congr}
use redbase.Record.Rid.{Rid}

abbrev entry_of : {K : Type 0} → Node K → ℕ → K × Rid
entry_of n i = (n.keys i, n.rids i)

module _ {K : Type 0} ⦃key : KeyOrder K⦄ where
  -- The two nodes `l` and `r` after the split of `n` with the empty node `fresh`.
  pub record IsSplit (n fresh l r : Node K) : Type 0 where
    pub half : l.num_keys ≡ (n.num_keys + 1) / 2
    pub contents : entries l ++ entries r ≡ entries n
    pub sorted : IsSorted l × IsSorted r
    pub valid : IsValid l × IsValid r
    pub link_left : l.left ≡ n.left
    pub link_between : (l.right ≡ fresh.page_rid.page) × (r.left ≡ n.page_rid.page)
    pub link_right : r.right ≡ n.right

  entries-parts :
      (n l r : Node K) (a b : ℕ)
      → l.num_keys ≡ a
      → r.num_keys ≡ b
      → n.num_keys ≡ a + b
      → ((j : ℕ) → j < a → (l.keys j ≡ n.keys j) × (l.rids j ≡ n.rids j))
      → ((j : ℕ) → j < b → (r.keys j ≡ n.keys (a + j)) × (r.rids j ≡ n.rids (a + j)))
      → entries l ++ entries r ≡ entries n
  entries-parts n l r a b el er en low high =
      rw (el, er, en)
        (ap₂ ◌++◌ (tabulate-congr a (entry_of n) (entry_of l) (λ j h. ground (arith, low j h))) refl
          ∙ sym (tabulate-append a b (entry_of n) (entry_of r) (λ j h. ground (arith, high j h))))

  -- The nodes that `split` returns when both loops succeed.
  abbrev relinked : Node K → Node K → Node K × Node K × ℤ
  relinked kept filled = (
    record kept { right = filled.page_rid.page },
    record filled { right = kept.right; left = kept.page_rid.page },
    pos 0,
  )

  split_run :
      (n fresh : Node K) (first_moved move_count : ℕ)
      → (n.num_keys + 1) / 2 ≡ first_moved
      → n.num_keys - first_moved ≡ move_count
      → IsValid fresh
      → fresh.num_keys + move_count ≤ fresh.order
      → (copy_entries move_count first_moved n fresh).1 ≡ pos 0
      → (drop_entries move_count first_moved n).1 ≡ pos 0
      → split n fresh
        ≡ relinked
            (drop_entries move_count first_moved n).0
            (copy_entries move_count first_moved n fresh).0
  unfolding split
  split_run n fresh f c ef ec w room filled kept = rw (
    split,
    get_num_keys_valid fresh w,
    ef,
    ec,
    ltb-false fresh.order (fresh.stored_keys + c) (omega (arith, w.synced)),
    filled,
    kept,
  )

  relinked-IsSplit :
      (n fresh kept filled : Node K)
      → IsValid n
      → IsSorted n
      → fresh.num_keys ≡ 0
      → IsExtended n fresh filled ((n.num_keys + 1) / 2) (n.num_keys - (n.num_keys + 1) / 2)
      → IsCut n kept ((n.num_keys + 1) / 2)
      → IsSplit n fresh (relinked kept filled).0 (relinked kept filled).1
  relinked-IsSplit n fresh kept filled v s empty more cut = record {
    half = cut.counted;
    contents =
        entries-parts n (relinked kept filled).0 (relinked kept filled).1 _ _ cut.counted
          (omega (arith, more.counted)) (omega arith) cut.own moved;
    sorted = (
      λ a b l l'.
          Le_congr (cut.own a (omega (arith, cut.counted))).0
            (cut.own b (omega (arith, cut.counted))).0 (s a b l (omega (arith, cut.counted))),
      λ a b l l'.
          Le_congr (moved a (omega (arith, more.counted))).0
            (moved b (omega (arith, more.counted))).0
            (s _ _ (omega arith) (omega (arith, more.counted))),
    );
    valid = (
      record { synced = cut.valid.synced; fits = cut.valid.fits },
      record { synced = more.valid.synced; fits = more.valid.fits },
    );
    link_left = cut.frame.left;
    link_between =
        (ap (λ (r : Rid). r.page) more.frame.page, ap (λ (r : Rid). r.page) cut.frame.page);
    link_right = cut.frame.right;
  }
    where
      moved :
          (j : ℕ)
          → j < n.num_keys - (n.num_keys + 1) / 2
          → (filled.keys j ≡ n.keys ((n.num_keys + 1) / 2 + j))
            × (filled.rids j ≡ n.rids ((n.num_keys + 1) / 2 + j))
      moved j l =
          let e : fresh.num_keys + j ≡ j = omega arith in
          let (k, r) = more.new j l in (ap filled.keys (sym e) ∙ k, ap filled.rids (sym e) ∙ r)

  -- The split succeeds on ascending entries, when the fresh node can hold the half that moves: the
  -- lower half stays, rounded up, nothing is lost, added or reordered, both nodes are valid and
  -- ascending, and the fresh node is linked between this one and its old right neighbour.
  pub split-IsSplit :
      (n fresh : Node K)
      → IsValid n
      → IsSorted n
      → IsValid fresh
      → fresh.num_keys ≡ 0
      → n.num_keys / 2 ≤ fresh.order
      → ((split n fresh).2 ≡ pos 0) × IsSplit n fresh (split n fresh).0 (split n fresh).1
  split-IsSplit n fresh v s w empty room =
      let f = (n.num_keys + 1) / 2 in
      let c = n.num_keys - f in
      let (more, filled) =
        copy_entries-IsExtended c f n fresh s (omega arith) w (omega arith)
          (λ j e left. absurd (omega arith)) in
      let (cut, kept) = drop_entries-IsCut c f n v (omega arith) in
      rw (split_run n fresh f c refl refl w (omega arith) filled kept)
        (refl, relinked-IsSplit n fresh _ _ v s empty more cut)
