-- ===== src/Btree/Merge.antt =====
-- `BtreeNode::Merge`: every entry of another node moves here.
use mathlib.Core.List.Perm
use mathlib.Core.List.{Perm, perm_middle, append-nil}
use redbase.Base.{
  ℕ, zero, suc, ◌+◌, ◌≤◌, ◌≡◌, ◌≢◌, refl, arith, pos, negsuc, ltb, ltb_ℤ, ap, ap₂, tabulate-congr,
  ◌∙◌, sym, subst, ltb-false, ℤ, tabulate, insert_at, List, [], ◌∷◌, ◌++◌, if◌then◌else◌, eqb_ℤ,
  eqb_ℤ_iff, Bool-cases, inl, inr,
}
use redbase.Btree.Copy.{SameFrame-trans, IsCut, copy_step, drop_entries-IsCut}
use redbase.Btree.Insert.{
  get_num_keys_valid, IsValid, IsSorted, SameFrame, IsInserted-entries, insert_lem,
}
use redbase.Btree.Key.{KeyOrder, eq0}
use redbase.Btree.Node.{Node, entries, insert, merge, copy_entries, drop_entries}
use redbase.Btree.Order.{insert-IsSorted}
use redbase.Record.Rid.{Rid}

insert_at-Perm : {A : Type 0} (i : ℕ) (a : A) (xs : List A) → Perm (insert_at i a xs) (a ∷ xs)
insert_at-Perm zero a xs = Perm.refl (a ∷ xs)
insert_at-Perm (suc i) a [] = Perm.refl (a ∷ [])
insert_at-Perm (suc i) a (x ∷ xs) =
    Perm.trans (Perm.cons x (insert_at-Perm i a xs)) (Perm.swap a x xs)

module _ {K : Type 0} ⦃key : KeyOrder K⦄ where
  -- The entries of a node from `i` on.
  abbrev part : Node K → ℕ → ℕ → List (K × Rid)
  part n i rounds = tabulate rounds (λ j. (n.keys (i + j), n.rids (i + j)))

  part_first :
      (src dst : Node K) (i rounds : ℕ)
      → Perm
          (entries dst ++ part src i (suc rounds))
          ((src.keys i, src.rids i) ∷ (entries dst ++ part src (suc i) rounds))
  part_first src dst i rounds =
      let first : part src i (suc rounds) ≡ (src.keys i, src.rids i) ∷ part src (suc i) rounds =
        ap₂ ◌∷◌ (ap (λ j. (src.keys j, src.rids j)) (omega arith))
          (tabulate-congr rounds _ _ (λ j l. ap (λ k. (src.keys k, src.rids k)) (omega arith))) in
      subst
        (λ ys.
          Perm (entries dst ++ ys)
            ((src.keys i, src.rids i) ∷ (entries dst ++ part src (suc i) rounds)))
        (sym first) (perm_middle (entries dst) (part src (suc i) rounds))

  -- `m` has the entries of `dst` and `added`.
  pub record IsUnion (dst m : Node K) (added : List (K × Rid)) (rounds : ℕ) : Type 0 where
    pub counted : m.num_keys ≡ dst.num_keys + rounds
    pub contents : Perm (entries m) (entries dst ++ added)
    pub sorted : IsSorted m
    pub valid : IsValid m
    pub frame : SameFrame dst m

  -- The loop of `Insert` calls, whatever the order of the entries that come in.
  copy_entries-IsUnion :
      (rounds i : ℕ) (src dst : Node K)
      → IsValid dst
      → IsSorted dst
      → dst.num_keys + rounds ≤ dst.order
      → IsUnion dst (copy_entries rounds i src dst).0 (part src i rounds) rounds
        × ((copy_entries rounds i src dst).1 ≡ pos 0)
  copy_entries-IsUnion zero i src dst v s room =
      unfold copy_entries in
      (
        record {
          counted = omega arith;
          contents =
              subst (λ ys. Perm (entries dst) ys) (sym (append-nil (entries dst)))
                (Perm.refl (entries dst));
          sorted = s;
          valid = v;
          frame = record { order = refl; page = refl; left = refl; right = refl };
        },
        refl,
      )
  copy_entries-IsUnion (suc rounds) i src dst v s room =
      let x = src.keys i in
      let r = src.rids i in
      let (p, place, t, code) = insert_lem x r dst v (omega arith) in
      let d = (insert x r dst).0 in
      let (more, ok) =
        copy_entries-IsUnion rounds (suc i) src d t.valid
          (insert-IsSorted x r dst v (omega arith) s) (omega (arith, t.counted, t.frame.order)) in
      rw (copy_step rounds i src dst code) (
        record {
          counted = omega (arith, more.counted, t.counted);
          contents = Perm.trans more.contents (
              Perm.trans
                (Perm.append_right (part src (suc i) rounds) (
                  subst (λ ys. Perm ys ((x, r) ∷ entries dst)) (sym (IsInserted-entries t))
                    (insert_at-Perm p (x, r) (entries dst))))
                (Perm.symm (part_first src dst i rounds)));
          sorted = more.sorted;
          valid = more.valid;
          frame = SameFrame-trans _ _ _ t.frame more.frame;
        },
        ok,
      )

  -- This node, `l`, and the other one, `r`, after the merge of `other` into `n`.
  pub record IsMerged (n other l r : Node K) : Type 0 where
    pub contents : Perm (entries l) (entries n ++ entries other)
    pub sorted : IsSorted l
    pub valid : IsValid l × IsValid r
    pub emptied : r.num_keys ≡ 0
    pub from_right : n.page_rid.page ≡ other.left → (l.right ≡ other.right) × (l.left ≡ n.left)
    pub from_left : n.page_rid.page ≢ other.left → (l.left ≡ other.left) × (l.right ≡ n.right)

  -- The nodes after a merge whose two loops succeed.
  abbrev joined : Node K → Node K → Node K × Node K × ℤ
  joined filled emptied =
      if eqb_ℤ filled.page_rid.page emptied.left
      then (record filled { right = emptied.right }, emptied, pos 0)
      else (record filled { left = emptied.left }, emptied, pos 0)

  -- The merge with a node whose count is read from its page already.
  abbrev merged : Node K → Node K → Node K × Node K × ℤ
  merged n other =
      if ltb n.order (n.num_keys + other.num_keys)
      then (n, other, negsuc 0)
      else (let (filled, rc) = copy_entries other.num_keys 0 other n in
          if eq0 rc
          then (let (emptied, rc') = drop_entries other.num_keys 0 other in
              if ltb_ℤ rc' (negsuc 0) then (filled, emptied, rc') else joined filled emptied)
          else (filled, other, rc))

  merged_run :
      (n other : Node K)
      → n.num_keys + other.num_keys ≤ n.order
      → (copy_entries other.num_keys 0 other n).1 ≡ pos 0
      → (drop_entries other.num_keys 0 other).1 ≡ pos 0
      → merged n other
        ≡ joined (copy_entries other.num_keys 0 other n).0 (drop_entries other.num_keys 0 other).0
  merged_run n other room filled emptied =
      rw (ltb-false n.order (n.num_keys + other.num_keys) room, filled, emptied) refl

  merge-merged : (n other : Node K) → IsValid other → merge n other ≡ merged n other
  unfolding merge
  merge-merged n other w = ap (merged n) (get_num_keys_valid other w)

  all_of : (n : Node K) → part n 0 n.num_keys ≡ entries n
  all_of n = tabulate-congr n.num_keys _ _ (λ j l. ap (λ k. (n.keys k, n.rids k)) (omega arith))

  joined-IsMerged :
      (n other filled emptied : Node K)
      → IsUnion n filled (part other 0 other.num_keys) other.num_keys
      → IsCut other emptied 0
      → ((joined filled emptied).2 ≡ pos 0)
        × IsMerged n other (joined filled emptied).0 (joined filled emptied).1
  joined-IsMerged n other filled emptied u c =
      let contents =
        subst (λ ys. Perm (entries filled) (entries n ++ ys)) (all_of other) u.contents in
      let page = ap (λ (r : Rid). r.page) u.frame.page in
      elim (Bool-cases (eqb_ℤ filled.page_rid.page emptied.left)) [
        | inl e ↦
            let same = (eqb_ℤ_iff filled.page_rid.page emptied.left).0 e in
            rw (e) (
              refl,
              record {
                contents = contents;
                sorted = u.sorted;
                valid = (record { synced = u.valid.synced; fits = u.valid.fits }, c.valid);
                emptied = c.counted;
                from_right = λ h. (c.frame.right, u.frame.left);
                from_left = λ h. absurd (h (sym page ∙ same ∙ c.frame.left));
              },
            )
        | inr e ↦ rw (e) (
          refl,
          record {
            contents = contents;
            sorted = u.sorted;
            valid = (record { synced = u.valid.synced; fits = u.valid.fits }, c.valid);
            emptied = c.counted;
            from_right = λ h.
                let same =
                  (eqb_ℤ_iff filled.page_rid.page emptied.left).1 (page ∙ h ∙ sym c.frame.left) in
                absurd (cc (same, e));
            from_left = λ h. (c.frame.left, u.frame.right);
          },
        )
      ]

  -- The merge of a node into one with room for its entries succeeds: this node has the entries of
  -- both, ascending and none lost or added, the other node is empty, and this node takes over the link of
  -- the other one on the side where that one stood.
  pub merge-IsMerged :
      (n other : Node K)
      → IsValid n
      → IsSorted n
      → IsValid other
      → n.num_keys + other.num_keys ≤ n.order
      → ((merge n other).2 ≡ pos 0) × IsMerged n other (merge n other).0 (merge n other).1
  merge-IsMerged n other v s w room =
      let (all, filled) = copy_entries-IsUnion other.num_keys 0 other n v s room in
      let (cut, emptied) = drop_entries-IsCut other.num_keys 0 other w (omega arith) in
      rw (merge-merged n other w, merged_run n other room filled emptied)
        (joined-IsMerged n other _ _ all cut)
