-- ===== src/Tests/Tables.antt =====
-- The scan of a table with one page, which has the records of two slots.
use redbase.Base.{
  ℕ, zero, suc, ◌≡◌, refl, true, false, pos, negsuc, none, some, Option, List, [], ◌∷◌, ℤ, rem, ltb,
  ◌==◌, if◌then◌else◌,
}
use redbase.Bytes.{Bytes, Floats}
use redbase.Operator.Table.{
  FileScan, FilterMeta, value, table_iterator, open_table, get_next_row, close_table,
}
use redbase.Operator.{DataAttrInfo, no_f, print_iterator}
use redbase.Paged.Buffer.{Desc, Os, new_buffer}
use redbase.Paged.Hash.{hash, same_page}
use redbase.Paged.File.{Handle, list_end}
use redbase.Paged.Outcome.{Outcome, ok, err, fault, ◌>>◌}
use redbase.Record.File.{RecordFile}
use redbase.Record.Scan.{RmFileScan, new_scan, open_scan, goto_page, get_next_rec}
use redbase.Types.{string, eq_op, no_op}

abbrev memory : ℕ → Desc
memory i = record {
  bytes = λ k. 7;
  next = none;
  prev = none;
  dirty = false;
  pins = 0;
  page = pos 0;
  fd = pos 0;
}

-- The page: 4 slots of 1000 bytes, of which the slots 1 and 3 are free. The first word
-- says that the page is used.
abbrev page_bytes : Bytes
page_bytes k =
    if k == 0
    then 254
    else if ltb k 4
    then 255
    else if k == 8
    then 4
    else if k == 12
    then 2
    else if k == 16
    then 10
    else if k == 17
    then 5
    else if k == 18
    then 9
    else if k == 2017
    then 7
    else if k == 2018
    then 8
    else 0

-- A disk with this page.
abbrev disk : Os Unit
disk = record {
  lseek = λ fd at f. (f, at);
  read = λ fd n p f. (f, pos n, page_bytes);
  write = λ fd n p f. (f, pos n);
}

abbrev handle : Handle
handle = record {
  hdr = record { first_free = list_end; num_pages = pos 2 };
  file_open = true;
  hdr_changed = false;
  unixfd = pos 3;
}

abbrev table : RecordFile Unit
table = record {
  pf = some handle;
  buffer = new_buffer 3 memory (λ i. pos i) tt;
  hdr = record { first_free = list_end; num_pages = pos 2; record_size = 1000 };
  file_open = true;
  hdr_changed = false;
}

abbrev no_floats : Floats
no_floats = record { lt = λ a b. false; eq = λ a b. false }

abbrev row_of : ℕ → ℕ → Bytes
row_of a b zero = a
row_of a b (suc zero) = b
row_of a b (suc (suc i)) = 0

abbrev attrs : List DataAttrInfo
attrs =
    record {
      offset = pos 0;
      attr_type = string;
      attr_length = 2;
      index_no = negsuc 0;
      rel_name = [];
      attr_name = 97 ∷ [];
      func = no_f;
    }
    ∷ []

-- The filter that the second byte is 8.
abbrev second_is_8 : List FilterMeta
second_is_8 =
    record { type = string; length = 1; offset = 1; op = eq_op; rhs = value (some (λ k. 8)) } ∷ []

opened : Outcome (RmFileScan Unit) (Unit {0}) → Option (FileScan Unit)
opened (ok s u) = some (record { rfs = s; filters = second_is_8; iter_open = false; fuel = 4 })
opened (err s c) = none
opened fault = none

first_bytes : List Bytes → List (ℕ × ℕ)
first_bytes [] = []
first_bytes (x ∷ xs) = (x 0, x 1) ∷ first_bytes xs

printed : Option (FileScan Unit) → Option (List (ℕ × ℕ) × ℤ)
unfolding print_iterator first_bytes
printed none = none
printed (some s) =
    elim (print_iterator (table_iterator ⦃os = disk⦄ no_floats (λ k. 0) attrs) 3 (λ k. 0) s) [
      | none ↦ none
      | some r ↦ some (first_bytes r.1, r.2)
    ]

table_runs :
    printed (opened (open_scan table string 0 0 no_op none new_scan)) ≡ some ((7, 8) ∷ [], pos 0)
unfolding printed opened open_scan new_scan hash rem new_buffer same_page open_table get_next_row
    close_table
table_runs = refl

-- The same page with all slots free.
abbrev free_disk : Os Unit
free_disk = record {
  lseek = λ fd at f. (f, at);
  read = λ fd n p f. (f, pos n, λ k. if k == 16 then 15 else page_bytes k);
  write = λ fd n p f. (f, pos n);
}

then_next : Outcome (RmFileScan Unit) (Unit {0}) → Outcome (RmFileScan Unit) (Unit {0})
unfolding get_next_rec goto_page
then_next (ok s u) =
    (goto_page ⦃os = free_disk⦄ no_floats (λ k. 0) (pos 1)
        >> get_next_rec ⦃os = free_disk⦄ no_floats (λ k. 0))
      s
then_next (err s c) = err s c
then_next fault = fault

-- `GotoPage` of a page without records leaves the scan two slots before the first, and `GetNextRec`
-- then tests the slot -1.
goto_free_page_runs : then_next (open_scan table string 0 0 no_op none new_scan) ≡ fault
unfolding then_next open_scan new_scan hash rem new_buffer same_page
goto_free_page_runs = refl
