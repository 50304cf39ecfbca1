-- ===== src/Record/Scan/Rows.antt =====
-- The loop of `RM_FileScan::GetNextRec` of src/rm_filescan.cc over the pages of a table, which the buffer
-- holds: which records it gives.
use redbase.Base.{
  ℕ, zero, suc, ◌+◌, ◌-◌, ◌<◌, ◌≤◌, ◌≡◌, refl, sym, ◌∙◌, ap, subst, subst₂, Bool, true, false, none,
  some, if◌then◌else◌, eqb_ℤ, ◌+ℤ◌, ℤ, pos, negsuc, pos_part, neg_part, Option, arith, List, [],
  ◌∷◌, ◌++◌, ◌⊎◌, inl, inr, Bool-cases,
}
use redbase.Bytes.{Bytes, Floats}
use redbase.Paged.Buffer.{Buffer, Os}
use redbase.Paged.Outcome.{Outcome, Op, ok, err, pure, bind_ok}
use redbase.Predicate.{Predicate}
use redbase.Record.Rid.{Rid}
use redbase.Record.Scan.Held.{Table, HoldsTable, scan_at, bytes_at, record_at}
use redbase.Record.Scan.Slots.{recs, SlotsEnd, hit, miss, scan_page_lem}
use redbase.Record.Scan.{RmFileScan, scan_page, scan_pages, get_next_rec, rm_eof}

pub next_page : (k : ℕ) → pos k +ℤ pos 1 ≡ pos (suc k)
unfolding redbase.Base.◌+ℤ◌
next_page k = ground arith

this_page : (k : ℕ) → eqb_ℤ (pos k) (pos k) ≡ true
this_page k = ground arith

other_page : (j k : ℕ) → j < k → eqb_ℤ (pos j) (pos k) ≡ false
other_page j k less = ground arith

module _ (f : Floats) (memory : Bytes) (t : Table) (p : Predicate) where
  -- The records of `m` pages from page `k` on.
  unfoldable pub page_recs : ℕ → ℕ → List Bytes
  unfolding recs
  page_recs zero k = []
  page_recs (suc m) k = recs f memory t p (suc t.more_slots) k 0 ++ page_recs m (suc k)

  -- The records ahead of a scan in page `k`, `m` pages behind it, which has `n` slots ahead from `i` on.
  abbrev pub ahead : ℕ → ℕ → ℕ → ℕ → List Bytes
  ahead n k i m = recs f memory t p n k i ++ page_recs m (suc k)

module _ {F : Type 0} ⦃os : Os F⦄ (f : Floats) (memory : Bytes) (t : Table) (p : Predicate) where
  -- How the loop over the pages ends.
  pub data PagesEnd (q : ℕ) (l : List Bytes) (o : Outcome (RmFileScan F) (Unit {0})) : Type 0 where
    found :
        (c : Buffer F) (n k i m : ℕ)
        → n + suc i ≡ suc t.more_slots
        → 0 < k
        → suc k + m ≡ t.num_pages
        → HoldsTable t (suc q) c
        → l ≡ bytes_at t k i ∷ ahead f memory t p n k (suc i) m
        → o ≡ ok (scan_at t p c (record { page = pos k; slot = pos i }) (record_at t k i)) tt
        → PagesEnd q l o
    no_more :
        (c : Buffer F) (cur : Rid) (r : Option (Bytes × Rid))
        → HoldsTable t (suc q) c
        → l ≡ []
        → o ≡ err (scan_at t p c cur r) rm_eof
        → PagesEnd q l o

  -- A round of that loop: a record of the page, or what the rest of the loop gives.
  pages_round :
      (m n k i q : ℕ) (s : RmFileScan F)
      → 0 < k
      → suc k + m ≡ t.num_pages
      → SlotsEnd f memory t p k q (recs f memory t p n k i) (scan_page f memory (pos k) s)
      → ((c : Buffer F) (j : ℕ) (z : ℤ) (r : Option (Bytes × Rid))
          → j ≤ k
          → HoldsTable t (suc q) c
          → PagesEnd q (page_recs f memory t p m (suc k)) (
              scan_pages f memory m
                (pos (suc k))
                (scan_at t p c (record { page = pos j; slot = z }) r)))
      → PagesEnd q (ahead f memory t p n k i m) (scan_pages f memory (suc m) (pos k) s)
  unfolding scan_pages
  pages_round m n k i q s posi pages this others =
      let next : Op (RmFileScan F) (Unit {0}) = scan_pages f memory m (pos k +ℤ pos 1) in
      let stop : Bool → Op (RmFileScan F) (Unit {0}) = λ x. if x then pure tt else next in
      elim this [
        | hit c n' i' e' h' same end ↦
            found c n' k i' m e' posi pages h'
              (ap (λ x. x ++ page_recs f memory t p m (suc k)) same)
              (bind_ok (scan_page f memory (pos k)) stop s
                (scan_at t p c (record { page = pos k; slot = pos i' }) (record_at t k i')) true
                end)
        | miss c j z r less h none_left end ↦
            let s' = scan_at t p c (record { page = pos j; slot = z }) r in
            let ends : scan_pages f memory (suc m) (pos k) s
                ≡ scan_pages f memory m (pos (suc k)) s' =
              bind_ok (scan_page f memory (pos k)) stop s s' false end
              ∙ ap (λ x. scan_pages f memory m x s') (next_page k) in
            subst₂ (PagesEnd q) (sym (ap (λ x. x ++ page_recs f memory t p m (suc k)) none_left))
              (sym ends) (others c j z r less h)
      ]

  scan_pages_lem :
      (m n k i q : ℕ) (b : Buffer F) (j : ℕ) (z : ℤ) (r : Option (Bytes × Rid))
      → HoldsTable t (suc q) b
      → 0 < k
      → suc k + m ≡ t.num_pages
      → n + i ≡ suc t.more_slots
      → j ≤ k
      → (if eqb_ℤ (pos j) (pos k) then z +ℤ pos 1 else pos 0) ≡ pos i
      → PagesEnd q (ahead f memory t p n k i m) (
          scan_pages f memory (suc m) (pos k) (scan_at t p b (record { page = pos j; slot = z }) r))
  unfolding scan_pages page_recs
  scan_pages_lem zero n k i q b j z r h posi pages e less start =
      pages_round zero n k i q (scan_at t p b (record { page = pos j; slot = z }) r) posi pages
        (scan_page_lem f memory t p n k i q b j z r h (posi, omega arith) e less start)
        (λ c j' z' r' less' h'. no_more c (record { page = pos j'; slot = z' }) r' h' refl refl)
  scan_pages_lem (suc m) n k i q b j z r h posi pages e less start =
      pages_round (suc m) n k i q (scan_at t p b (record { page = pos j; slot = z }) r) posi pages
        (scan_page_lem f memory t p n k i q b j z r h (posi, omega arith) e less start)
        (λ c j' z' r' less' h'.
          scan_pages_lem m (suc t.more_slots) (suc k) 0 q c j' z' r' h' (omega arith) (omega arith)
            (omega arith) (omega arith)
            (ap (λ x. if x then z' +ℤ pos 1 else pos 0) (other_page j' (suc k) (omega arith))))

  -- `GetNextRec` gives the first of the records that are ahead, or the end code.
  pub get_next_rec_lem :
      (m n k i q : ℕ) (b : Buffer F) (z : ℤ) (r : Option (Bytes × Rid))
      → HoldsTable t (suc q) b
      → 0 < k
      → suc k + m ≡ t.num_pages
      → n + i ≡ suc t.more_slots
      → z +ℤ pos 1 ≡ pos i
      → PagesEnd q
          (ahead f memory t p n k i m)
          (get_next_rec f memory (scan_at t p b (record { page = pos k; slot = z }) r))
  unfolding get_next_rec
  get_next_rec_lem m n k i q b z r h posi pages e start =
      let left : suc m ≡ t.num_pages + 0 - (k + 0) = omega (arith, pages) in
      subst
        (λ x.
          PagesEnd q (ahead f memory t p n k i m)
            (scan_pages f memory x (pos k) (scan_at t p b (record { page = pos k; slot = z }) r)))
        left
        (scan_pages_lem m n k i q b k z r h posi pages e (omega arith)
          (ap (λ x. if x then z +ℤ pos 1 else pos 0) (this_page k) ∙ start))
