-- ===== src/Record/Scan/Slots.antt =====
-- The loop of `RM_FileScan::GetNextRec` of src/rm_filescan.cc over the slots of one page, which the buffer
-- holds: which records it gives.
use redbase.Base.{
  ℕ, zero, suc, ◌+◌, ◌-◌, ◌≤◌, ◌≡◌, refl, sym, ◌∙◌, ap, subst, subst₂, Bool, true, false,
  if◌then◌else◌, eqb_ℤ, ◌+ℤ◌, ℤ, pos, pos_part, Option, arith, List, [], ◌∷◌, inl, inr, Bool-cases,
}
use redbase.Bytes.{Bytes, Floats}
use redbase.Paged.Buffer.{Buffer, Os}
use redbase.Paged.Outcome.{Outcome, Op, ok, ◌>>=◌, pure, bind_ok}
use redbase.Predicate.{Predicate}
use redbase.Record.Page.{get_num_slots}
use redbase.Record.Rid.{Rid}
use redbase.Record.Scan.Held.{
  Table, InTable, HoldsTable, scan_at, map_of, bytes_at, record_at, passes_at, page_map_lem,
  try_slot_lem,
}
use redbase.Record.Scan.{RmFileScan, try_slot, scan_slots, scan_page, from_slot, page_map}

module _ (f : Floats) (memory : Bytes) (t : Table) (p : Predicate) where
  -- The records in `n` slots of page `k` from slot `i` on, which the predicate lets through.
  unfoldable pub recs : ℕ → ℕ → ℕ → List Bytes
  recs zero k i = []
  recs (suc n) k i =
      let rest = recs n k (suc i) in
      if map_of memory t k i
      then rest
      else if passes_at f t p k i
      then bytes_at t k i ∷ rest
      else rest

module _ {F : Type 0} ⦃os : Os F⦄ (f : Floats) (memory : Bytes) (t : Table) (p : Predicate) where
  -- How the loop over the slots of page `k` ends, with these records ahead of it.
  pub data SlotsEnd (k q : ℕ) (l : List Bytes) (o : Outcome (RmFileScan F) Bool) : Type 0 where
    hit :
        (c : Buffer F) (n i : ℕ)
        → n + suc i ≡ suc t.more_slots
        → HoldsTable t (suc q) c
        → l ≡ bytes_at t k i ∷ recs f memory t p n k (suc i)
        → o ≡ ok (scan_at t p c (record { page = pos k; slot = pos i }) (record_at t k i)) true
        → SlotsEnd k q l o
    miss :
        (c : Buffer F) (j : ℕ) (z : ℤ) (r : Option (Bytes × Rid))
        → j ≤ k
        → HoldsTable t (suc q) c
        → l ≡ []
        → o ≡ ok (scan_at t p c (record { page = pos j; slot = z }) r) false
        → SlotsEnd k q l o

  abbrev from_to : ℕ → ℕ → ℕ → RmFileScan F → Outcome (RmFileScan F) Bool
  from_to n k i s = scan_slots f memory n (map_of memory t k) (pos k) i s

  free_skips :
      (n k i : ℕ) (s : RmFileScan F)
      → map_of memory t k i ≡ true
      → (from_to (suc n) k i s ≡ from_to n k (suc i) s)
        × (recs f memory t p (suc n) k i ≡ recs f memory t p n k (suc i))
  unfolding scan_slots recs
  free_skips n k i s e = (
    ap
        (λ q.
          (if q
              then rest
              else (try_slot f memory (pos k) i >>= λ found. if found then pure true else rest))
            s)
        e,
    ap
        (λ q.
          if q
          then recs f memory t p n k (suc i)
          else if passes_at f t p k i
          then bytes_at t k i ∷ recs f memory t p n k (suc i)
          else recs f memory t p n k (suc i))
        e,
  )
    where
      rest : Op (RmFileScan F) Bool
      rest = scan_slots f memory n (map_of memory t k) (pos k) (suc i)

  taken_tries :
      (n k i : ℕ) (s u : RmFileScan F) (x : Bool)
      → map_of memory t k i ≡ false
      → try_slot f memory (pos k) i s ≡ ok u x
      → passes_at f t p k i ≡ x
      → (from_to (suc n) k i s ≡ (if x then pure true else from_to n k (suc i)) u)
        × (recs f memory t p (suc n) k i ≡ (
            if x
            then bytes_at t k i ∷ recs f memory t p n k (suc i)
            else recs f memory t p n k (suc i)))
  unfolding scan_slots recs
  taken_tries n k i s u x e tried passes = (
    ap
          (λ q.
            (if q
                then rest
                else (try_slot f memory (pos k) i >>= λ found. if found then pure true else rest))
              s)
          e
        ∙ bind_ok (try_slot f memory (pos k) i) (λ found. if found then pure true else rest) s u x
            tried,
    ap
          (λ q.
            if q
            then recs f memory t p n k (suc i)
            else if passes_at f t p k i
            then bytes_at t k i ∷ recs f memory t p n k (suc i)
            else recs f memory t p n k (suc i))
          e
        ∙ ap
            (λ q.
              if q
              then bytes_at t k i ∷ recs f memory t p n k (suc i)
              else recs f memory t p n k (suc i))
            passes,
  )
    where
      rest : Op (RmFileScan F) Bool
      rest = scan_slots f memory n (map_of memory t k) (pos k) (suc i)

  scan_slots_lem :
      (n k i q : ℕ) (b : Buffer F) (j : ℕ) (z : ℤ) (r : Option (Bytes × Rid))
      → HoldsTable t (suc q) b
      → InTable t.num_pages (pos k)
      → n + i ≡ suc t.more_slots
      → j ≤ k
      → SlotsEnd k q
          (recs f memory t p n k i)
          (from_to n k i (scan_at t p b (record { page = pos j; slot = z }) r))
  unfolding scan_slots recs
  scan_slots_lem zero k i q b j z r h u e less = miss b j z r less h refl refl
  scan_slots_lem (suc n) k i q b j z r h u e less =
      let s = scan_at t p b (record { page = pos j; slot = z }) r in
      elim (Bool-cases (map_of memory t k i)) [
        | inl free ↦
            let (same, same') = free_skips n k i s free in
            subst₂ (SlotsEnd k q) (sym same') (sym same)
              (scan_slots_lem n k (suc i) q b j z r h u (omega arith) less)
        | inr taken ↦
            let (c, tried, h') =
              try_slot_lem f memory t p k i q b (record { page = pos j; slot = z }) r h u
                (omega arith) taken in
            let after = scan_at t p c (record { page = pos k; slot = pos i }) (record_at t k i) in
            elim (Bool-cases (passes_at f t p k i)) [
              | inl yes_x ↦
                  let (same, same') =
                    taken_tries n k i s after true taken (tried ∙ ap (ok after) yes_x) yes_x in
                  hit c n i (omega arith) h' same' same
              | inr no_x ↦
                  let (same, same') =
                    taken_tries n k i s after false taken (tried ∙ ap (ok after) no_x) no_x in
                  subst₂ (SlotsEnd k q) (sym same') (sym same) (
                    scan_slots_lem n k (suc i) q c k (pos i) (record_at t k i) h' u (omega arith)
                      (omega arith))
            ]
      ]

  -- A page, of which the slots from `i` on are ahead: after the one that the scan stands at on this page, or
  -- all of them.
  pub scan_page_lem :
      (n k i q : ℕ) (b : Buffer F) (j : ℕ) (z : ℤ) (r : Option (Bytes × Rid))
      → HoldsTable t (suc q) b
      → InTable t.num_pages (pos k)
      → n + i ≡ suc t.more_slots
      → j ≤ k
      → (if eqb_ℤ (pos j) (pos k) then z +ℤ pos 1 else pos 0) ≡ pos i
      → SlotsEnd k q
          (recs f memory t p n k i)
          (scan_page f memory (pos k) (scan_at t p b (record { page = pos j; slot = z }) r))
  unfolding scan_page from_slot
  scan_page_lem n k i q b j z r h u e less start =
      let s = scan_at t p b (record { page = pos j; slot = z }) r in
      let (c, read, h') =
        page_map_lem f memory t p k q b (record { page = pos j; slot = z }) r h u in
      let s' = scan_at t p c (record { page = pos j; slot = z }) r in
      let rest : (ℕ → Bool) → Op (RmFileScan F) Bool = λ is_free s.
        from_slot f memory (if eqb_ℤ s.current.page (pos k) then s.current.slot +ℤ pos 1 else pos 0)
          is_free (pos k) s in
      let left : pos_part (get_num_slots t.record_size) - i ≡ n =
        ap (λ x. pos_part x - i) h.counted ∙ omega (arith, e) in
      let ends : scan_page f memory (pos k) s ≡ from_to n k i s' =
        bind_ok (page_map f memory (pos k)) rest s s' (map_of memory t k) read
        ∙ ap (λ x. from_slot f memory x (map_of memory t k) (pos k) s') start
        ∙ ap (λ x. from_to x k i s') left in
      subst (SlotsEnd k q (recs f memory t p n k i)) (sym ends)
        (scan_slots_lem n k i q c j z r h' u e less)
