-- ===== src/Operator/Table/Output.antt =====
-- What the `FileScan` of src/file_scan.cc gives on a table whose pages the buffer holds.
use redbase.Base.{
  ℕ, zero, suc, ◌+◌, ◌<◌, ◌≡◌, refl, sym, ◌∙◌, ap, subst, Bool, true, false, Bool-cases, none, some,
  ◌+ℤ◌, ℤ, pos, negsuc, Option, arith, List, [], ◌∷◌, length, inl, inr,
}
use redbase.Bytes.{Bytes, Floats}
use redbase.Operator.Scans.{Scans}
use redbase.Operator.Table.Tuples.{
  tuples_of, table_rows, passes_lem, no_tuples, scan_of, IsIdle, IsOpened, opens, stays_closed,
  IsOpened-IsIdle,
}
use redbase.Operator.Table.{
  FileScan, FilterMeta, passes_all, set_tuple, open_table, close_table, next_row, get_next_row,
  table_iterator,
}
use redbase.Operator.{DataAttrInfo}
use redbase.Paged.Buffer.{Buffer, Os}
use redbase.Paged.Outcome.{Outcome, ok, err, fault}
use redbase.Predicate.{Predicate}
use redbase.Record.Rid.{Rid}
use redbase.Record.Scan.Held.{Table, HoldsTable, scan_at, bytes_at, record_at}
use redbase.Record.Scan.Rows.{
  page_recs, ahead, PagesEnd, found, no_more, get_next_rec_lem, next_page,
}
use redbase.Record.Scan.{RmFileScan, get_next_rec, scan_is_open, first_current, rm_eof}

first_slot : negsuc 0 +ℤ pos 1 ≡ pos 0
unfolding ◌+ℤ◌
first_slot = refl

clash : (x : Bytes) (xs : List Bytes) → x ∷ xs ≡ [] → ⊥
clash x xs e = grind arith

heads : (x y : Bytes) (xs ys : List Bytes) → x ∷ xs ≡ y ∷ ys → x ≡ y
heads x y xs ys e = grind arith

tails : (x y : Bytes) (xs ys : List Bytes) → x ∷ xs ≡ y ∷ ys → xs ≡ ys
tails x y xs ys e = grind arith

module _ {F : Type 0} ⦃os : Os F⦄ (f : Floats) (memory : Bytes) (t : Table) (p : Predicate)
    (ms : List FilterMeta) (attrs : List DataAttrInfo) (fuel : ℕ) where
  -- Open, with these records ahead.
  data IsAhead (l : List Bytes) (s : FileScan F) : Type 0 where
    stands :
        (b : Buffer F) (n k i m : ℕ) (z : ℤ) (r : Option (Bytes × Rid))
        → HoldsTable t 1 b
        → 0 < k
        → suc k + m ≡ t.num_pages
        → n + i ≡ suc t.more_slots
        → z +ℤ pos 1 ≡ pos i
        → l ≡ ahead f memory t p n k i m
        → s ≡ scan_of t p ms fuel true b (record { page = pos k; slot = z }) r
        → IsAhead l s

  -- How the loop of `GetNext` ends.
  data RowEnd (tup : Bytes) (l : List Bytes) (o : Option (FileScan F × Bytes × ℤ)) : Type 0 where
    row :
        (x : Bytes) (l' : List Bytes) (u : FileScan F)
        → tuples_of f ms attrs l ≡ x ∷ tuples_of f ms attrs l'
        → length l' < length l
        → IsAhead l' u
        → o ≡ some (u, x, pos 0)
        → RowEnd tup l o
    over :
        (u : FileScan F)
        → tuples_of f ms attrs l ≡ []
        → IsOpened t p ms fuel u
        → o ≡ some (u, tup, rm_eof)
        → RowEnd tup l o

  abbrev after :
      ℕ → Bytes → FileScan F → Outcome (RmFileScan F) (Unit {0}) → Option (FileScan F × Bytes × ℤ)
  after n tup s o = elim o [
    | fault ↦ none
    | err r c ↦ some (record s { rfs = r }, tup, c)
    | ok r _ ↦ elim r.rec [
      | none ↦ none
      | some q ↦ elim (passes_all f s.filters q.0) [
        | true ↦ some (record s { rfs = r }, set_tuple attrs q.0, pos 0)
        | false ↦ next_row f memory attrs n tup (record s { rfs = r })
      ]
    ]
  ]

  -- A round of that loop.
  row_round :
      (n : ℕ) (tup : Bytes) (l : List Bytes) (b : Buffer F) (cur : Rid) (r : Option (Bytes × Rid))
      → PagesEnd f memory t p 0 l (get_next_rec f memory (scan_at t p b cur r))
      → ((l' : List Bytes) (u : FileScan F)
          → length l' < length l
          → IsAhead l' u
          → RowEnd tup l' (next_row f memory attrs n tup u))
      → RowEnd tup l (next_row f memory attrs (suc n) tup (scan_of t p ms fuel true b cur r))
  unfolding next_row
  row_round n tup l b cur r ends others =
      let s = scan_of t p ms fuel true b cur r in
      elim ends [
        | no_more c cur' r' h none_left e ↦
            over (scan_of t p ms fuel true c cur' r')
              (ap (tuples_of f ms attrs) none_left ∙ no_tuples f ms attrs) (c, cur', r', h, refl)
              (ap (after n tup s) e)
        | found c j k i m e posi pages h left got ↦
            let l' = ahead f memory t p j k (suc i) m in
            let x = bytes_at t k i in
            let u =
              scan_of t p ms fuel true c (record { page = pos k; slot = pos i })
                (record_at t k i) in
            let at : IsAhead l' u =
              stands c j k (suc i) m (pos i) (record_at t k i) h posi pages e (next_page i) refl
                refl in
            let shorter : length l' < length l = omega (arith, ap length left) in
            let go : Bool → Option (FileScan F × Bytes × ℤ) = λ q. elim q [
              | true ↦ some (u, set_tuple attrs x, pos 0)
              | false ↦ next_row f memory attrs n tup u
            ] in
            elim (Bool-cases (passes_all f ms x)) [
              | inl good ↦
                  row (set_tuple attrs x) l' u
                    (ap (tuples_of f ms attrs) left ∙ passes_lem f ms attrs x l' true good) shorter
                    at (ap (after n tup s) got ∙ ap go good)
              | inr bad ↦
                  let skip : tuples_of f ms attrs l ≡ tuples_of f ms attrs l' =
                    ap (tuples_of f ms attrs) left ∙ passes_lem f ms attrs x l' false bad in
                  let same : next_row f memory attrs (suc n) tup s
                      ≡ next_row f memory attrs n tup u =
                    ap (after n tup s) got ∙ ap go bad in
                  elim (others l' u shorter at) [
                    | row y l'' v first less at' o ↦
                        row y l'' v (skip ∙ first) (omega (arith, less, shorter)) at' (same ∙ o)
                    | over v empty done o ↦ over v (skip ∙ empty) done (same ∙ o)
                  ]
            ]
      ]

  next_row_lem :
      (n : ℕ) (tup : Bytes) (l : List Bytes) (s : FileScan F)
      → length l < n
      → IsAhead l s
      → RowEnd tup l (next_row f memory attrs n tup s)
  next_row_lem zero tup l s less at = elim less [ ]
  next_row_lem (suc n) tup l s less (stands b c k i m z r h posi pages e start same eq) =
      let cur : Rid = record { page = pos k; slot = z } in
      subst (λ s. RowEnd tup l (next_row f memory attrs (suc n) tup s)) (sym eq)
        (row_round n tup l b cur r
          (subst (λ l. PagesEnd f memory t p 0 l (get_next_rec f memory (scan_at t p b cur r)))
            (sym same) (get_next_rec_lem f memory t p m c k i 0 b z r h posi pages e start))
          (λ l' u shorter at. next_row_lem n tup l' u (omega (arith, less, shorter)) at))

  -- Open, with tuples ahead whose records the fuel is enough for.
  record IsRest (xs : List Bytes) (s : FileScan F) : Type 0 where
    records : List Bytes
    ahead_of : IsAhead records s
    tuples : xs ≡ tuples_of f ms attrs records
    few : length records < fuel

  IsAhead-IsOpened : (l : List Bytes) (s : FileScan F) → IsAhead l s → IsOpened t p ms fuel s
  IsAhead-IsOpened l s (stands b n k i m z r h posi pages e start same eq) =
      (b, record { page = pos k; slot = z }, r, h, eq)

  -- Before its loop `GetNext` takes the data off the caller's record.
  get_next_row_lem :
      (tup : Bytes) (l : List Bytes) (s : FileScan F)
      → length l < fuel
      → IsAhead l s
      → RowEnd tup l (get_next_row f memory attrs tup s)
  unfolding get_next_row scan_is_open
  get_next_row_lem tup l s less (stands b n k i m z r h posi pages e start same eq) =
      let cur : Rid = record { page = pos k; slot = z } in
      subst (λ s. RowEnd tup l (get_next_row f memory attrs tup s)) (sym eq)
        (next_row_lem fuel tup l (scan_of t p ms fuel true b cur none) less
          (stands b n k i m z none h posi pages e start same refl))

  -- The scan of a table keeps the contract of an operator. The record file is open, it has a page of records and
  -- room for a record in a page, the buffer holds all its pages with room for one more pin of each, and the
  -- fuel is more than the number of records that pass the predicate. Then each opening gives, page by page and
  -- slot by slot, the tuples of the records in the slots that are not free that pass the predicate and
  -- the filters.
  pub table_iterator-Scans :
      (m : ℕ)
      → suc (suc m) ≡ t.num_pages
      → length (page_recs f memory t p (suc m) 1) < fuel
      → Scans
          (table_iterator {F = F} f memory attrs)
          (table_rows f memory t p ms attrs m)
          (IsIdle t p ms fuel)
  unfolding page_recs table_rows
  table_iterator-Scans m pages few = record {
    IsDone = IsOpened t p ms fuel;
    IsRest = IsRest;
    eof_ne = refl;
    eof_eq = refl;
    opened = λ s (b, r, h, e). (
      scan_of t p ms fuel true b first_current r,
      ap (λ s. some (open_table s)) e ∙ ap some (opens t p ms fuel b r),
      record {
        records = page_recs f memory t p (suc m) 1;
        ahead_of =
            stands b (suc t.more_slots) 1 0 m (negsuc 0) r h (omega arith) (omega (arith, pages))
              (omega arith) first_slot refl refl;
        tuples = refl;
        few = few;
      },
    );
    next = λ s tup x xs rest. elim (get_next_row_lem tup rest.records s rest.few rest.ahead_of) [
      | over u none_left done e ↦ absurd (clash x xs (rest.tuples ∙ none_left))
      | row y l u first less at e ↦
          let same = rest.tuples ∙ first in
          (
            u,
            e ∙ ap (λ x. some (u, x, pos 0)) (sym (heads x y xs (tuples_of f ms attrs l) same)),
            record {
              records = l;
              ahead_of = at;
              tuples = tails x y xs (tuples_of f ms attrs l) same;
              few = omega (arith, less, rest.few);
            },
          )
    ];
    ended = λ s tup rest. elim (get_next_row_lem tup rest.records s rest.few rest.ahead_of) [
      | over u none_left done e ↦ (u, tup, e, done)
      | row y l u first less at e ↦
          absurd (clash y (tuples_of f ms attrs l) (sym (rest.tuples ∙ first)))
    ];
    closed =
        λ s xs rest. IsOpened-IsIdle t p ms fuel s (IsAhead-IsOpened rest.records s rest.ahead_of);
    closed_done = λ s done. IsOpened-IsIdle t p ms fuel s done;
    closed_twice =
        λ s (b, r, h, e). (b, r, h, ap (λ s. (close_table s).0) e ∙ stays_closed t p ms fuel b r);
  }
