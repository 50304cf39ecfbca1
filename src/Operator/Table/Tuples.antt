-- ===== src/Operator/Table/Tuples.antt =====
-- The tuples that the `FileScan` of src/file_scan.cc is to give, and its states before and after a scan.
use redbase.Base.{
  ℕ, suc, ◌≡◌, refl, ◌∙◌, ap, Bool, true, false, if◌then◌else◌, pos, Option, List, [], ◌∷◌,
}
use redbase.Bytes.{Bytes, Floats}
use redbase.Operator.Table.{FileScan, FilterMeta, passes_all, set_tuple, open_table, close_table}
use redbase.Operator.{DataAttrInfo}
use redbase.Paged.Buffer.{Buffer}
use redbase.Predicate.{Predicate}
use redbase.Record.Rid.{Rid}
use redbase.Record.Scan.Held.{Table, HoldsTable, scan_at}
use redbase.Record.Scan.Rows.{page_recs}
use redbase.Record.Scan.{reset_state, scan_is_open, first_current}

-- The tuples of the records that the filters let through.
unfoldable pub tuples_of : Floats → List FilterMeta → List DataAttrInfo → List Bytes → List Bytes
tuples_of f ms attrs [] = []
tuples_of f ms attrs (x ∷ xs) =
    let rest = tuples_of f ms attrs xs in
    if passes_all f ms x then set_tuple attrs x ∷ rest else rest

-- The tuples of a table with `m` pages behind its first one.
unfoldable pub table_rows :
    Floats → Bytes → Table → Predicate → List FilterMeta → List DataAttrInfo → ℕ → List Bytes
unfolding page_recs tuples_of
table_rows f memory t p ms attrs m = tuples_of f ms attrs (page_recs f memory t p (suc m) 1)

module _ (f : Floats) (ms : List FilterMeta) (attrs : List DataAttrInfo) where
  pub passes_lem :
      (x : Bytes) (xs : List Bytes) (q : Bool)
      → passes_all f ms x ≡ q
      → tuples_of f ms attrs (x ∷ xs)
        ≡ (if q then set_tuple attrs x ∷ tuples_of f ms attrs xs else tuples_of f ms attrs xs)
  unfolding tuples_of
  passes_lem x xs q e =
      ap (λ q. if q then set_tuple attrs x ∷ tuples_of f ms attrs xs else tuples_of f ms attrs xs) e

  pub no_tuples : tuples_of f ms attrs [] ≡ []
  unfolding tuples_of
  no_tuples = refl

module _ {F : Type 0} (t : Table) (p : Predicate) (ms : List FilterMeta) (fuel : ℕ) where
  abbrev pub scan_of : Bool → Buffer F → Rid → Option (Bytes × Rid) → FileScan F
  scan_of on b cur r = record {
    rfs = scan_at t p b cur r;
    filters = ms;
    iter_open = on;
    fuel = fuel;
  }

  -- Closed, at the start of a table whose pages the buffer holds, which can be pinned once more.
  abbrev pub IsIdle : FileScan F → Type 0
  IsIdle s =
      (b : Buffer F) × (r : Option (Bytes × Rid)) × HoldsTable t 1 b
      × (s ≡ scan_of false b first_current r)

  abbrev pub IsOpened : FileScan F → Type 0
  IsOpened s =
      (b : Buffer F) × (cur : Rid) × (r : Option (Bytes × Rid)) × HoldsTable t 1 b
      × (s ≡ scan_of true b cur r)

  pub opens :
      (b : Buffer F) (r : Option (Bytes × Rid))
      → open_table (scan_of false b first_current r) ≡ (scan_of true b first_current r, pos 0)
  unfolding open_table scan_is_open
  opens b r = refl

  pub closes :
      (b : Buffer F) (cur : Rid) (r : Option (Bytes × Rid))
      → close_table (scan_of true b cur r) ≡ (scan_of false b first_current r, pos 0)
  unfolding close_table scan_is_open reset_state
  closes b cur r = refl

  pub stays_closed :
      (b : Buffer F) (r : Option (Bytes × Rid))
      → (close_table (scan_of false b first_current r)).0 ≡ scan_of false b first_current r
  unfolding close_table
  stays_closed b r = refl

  pub IsOpened-IsIdle :
      (s : FileScan F) → IsOpened s → ((close_table s).1 ≡ pos 0) × IsIdle ((close_table s).0)
  IsOpened-IsIdle s (b, cur, r, h, e) = (
    ap (λ s. (close_table s).1) e ∙ ap (λ x. x.1) (closes b cur r),
    (b, r, h, ap (λ s. (close_table s).0) e ∙ ap (λ x. x.0) (closes b cur r)),
  )
