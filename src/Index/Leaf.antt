-- ===== src/Index/Leaf.antt =====
-- The leaf that `InsertEntry` of src/ix_indexhandle.cc inserts into: it holds one entry more.
use redbase.Base.{
  ℕ, suc, ◌-◌, ◌<◌, ◌≡◌, ◌≢◌, refl, ap, ◌∙◌, sym, inl, inr, ◌⊎◌, arith, lt-cases, le-cases,
}
use redbase.Btree.Insert.{IsValid, IsInserted, insert_lem}
use redbase.Btree.Key.{KeyOrder}
use redbase.Btree.Node.{Node, insert}
use redbase.Btree.Order.{IsInserted-IsSorted}
use redbase.Index.Plus.{Plus}
use redbase.Index.Route.{Has}
use redbase.Index.Tree.{IsLeaf}
use redbase.Record.Rid.{Rid, null_rid}

module _ {K : Type 0} ⦃key : KeyOrder K⦄ where
  module _ (x : K) (r : Rid) (n m : Node K) (i : ℕ) (t : IsInserted x r n m i) where
    Has-split : (k : K) (s : Rid) → Has m k s → Has n k s ⊎ ((k ≡ x) × (s ≡ r))
    Has-split k s (j, l, e, e') = elim (lt-cases j i) [
      | inl h ↦ inl (j, omega (arith, t.le), sym (t.low j h).0 ∙ e, sym (t.low j h).1 ∙ e')
      | inr (inl h) ↦ inr (sym e ∙ ap m.keys h ∙ t.here.0, sym e' ∙ ap m.rids h ∙ t.here.1)
      | inr (inr h) ↦
          let back : j ≡ suc (j - 1) = omega arith in
          let (a, b) = t.high (j - 1) (omega arith) (omega (arith, t.counted)) in
          inl (
            j - 1,
            omega (arith, t.counted),
            sym a ∙ sym (ap m.keys back) ∙ e,
            sym b ∙ sym (ap m.rids back) ∙ e',
          )
    ]

    Has-join : (k : K) (s : Rid) → (Has n k s ⊎ ((k ≡ x) × (s ≡ r))) → Has m k s
    Has-join k s (inr (e, e')) =
        (i, omega (arith, t.le, t.counted), t.here.0 ∙ sym e, t.here.1 ∙ sym e')
    Has-join k s (inl (j, l, e, e')) = elim (le-cases j i) [
      | inl h ↦ (j, omega (arith, t.counted), (t.low j h).0 ∙ e, (t.low j h).1 ∙ e')
      | inr h ↦ (suc j, omega (arith, t.counted), (t.high j h l).0 ∙ e, (t.high j h l).1 ∙ e')
    ]

    Has-real :
        r ≢ null_rid
        → ((j : ℕ) → j < n.num_keys → n.rids j ≢ null_rid)
        → (j : ℕ) → j < m.num_keys
        → m.rids j ≢ null_rid
    Has-real named real j l e = elim (Has-split (m.keys j) (m.rids j) (j, l, refl, refl)) [
      | inl (j', l', _, e') ↦ real j' l' (e' ∙ e)
      | inr (_, e') ↦ named (sym e' ∙ e)
    ]

  -- After `Insert` into a leaf with room it is a leaf with one entry more.
  pub insert-IsLeaf :
      (x : K) (r : Rid) (n : Node K)
      → r ≢ null_rid
      → IsLeaf n
      → IsValid n
      → n.num_keys < n.order
      → IsLeaf (insert x r n).0 × IsValid (insert x r n).0 × Plus x r (Has n) (Has (insert x r n).0)
  insert-IsLeaf x r n named leaf valid room =
      let (i, place, t, _) = insert_lem x r n valid room in
      let m = (insert x r n).0 in
      (
        record {
          sorted = IsInserted-IsSorted x r n m i leaf.sorted place t;
          real = Has-real x r n m i t named leaf.real;
        },
        t.valid,
        λ k s. (Has-split x r n m i t k s, Has-join x r n m i t k s),
      )
