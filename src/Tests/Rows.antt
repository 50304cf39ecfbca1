-- ===== src/Tests/Rows.antt =====
-- Tables of one page with 4 slots of 1000 bytes, which the buffer holds in its slot 0.
use redbase.Base.{
  ℕ, zero, suc, ◌+◌, ◌<◌, ◌≡◌, refl, sym, subst, Bool, true, false, none, some, if◌then◌else◌, List,
  [], ◌∷◌, length, ℤ, pos, negsuc, arith, ◌==◌, ltb, rem,
}
use redbase.Bytes.{Bytes, Floats, read_int}
use redbase.Operator.Scans.{Scans}
use redbase.Operator.Table.Output.{table_iterator-Scans}
use redbase.Operator.Table.Tuples.{table_rows, tuples_of, IsIdle, scan_of}
use redbase.Operator.Table.{FileScan, table_iterator, set_tuple, passes_all}
use redbase.Operator.{DataAttrInfo, Iterator, no_f}
use redbase.Paged.Buffer.{Buffer}
use redbase.Paged.File.Held.{IsHeld}
use redbase.Paged.File.{is_valid_page_num, list_end}
use redbase.Paged.Hash.{find, hash, scan, same_page}
use redbase.Predicate.{Predicate}
use redbase.Record.Page.{get_num_slots, from_buf}
use redbase.Record.Scan.Held.{Table, InTable, HoldsTable, bytes_at}
use redbase.Record.Scan.Rows.{page_recs}
use redbase.Record.Scan.Slots.{recs}
use redbase.Record.Scan.{first_current}
use redbase.Tests.Held.{disk, entry_of}
use redbase.Types.{string, no_op}

-- The two first bytes of the records in the slots 0, 1 and 2, and the map of the free slots.
abbrev pub page_with : ℕ → ℕ × ℕ → ℕ × ℕ → ℕ × ℕ → Bytes
page_with free a b c k =
    if k == 0
    then 254
    else if ltb k 4
    then 255
    else if k == 8
    then 4
    else if k == 12
    then 2
    else if k == 16
    then free
    else if k == 17
    then a.0
    else if k == 18
    then a.1
    else if k == 1017
    then b.0
    else if k == 1018
    then b.1
    else if k == 2017
    then c.0
    else if k == 2018
    then c.1
    else 0

abbrev pub buffer_of : Bytes → Buffer Unit
buffer_of page = record {
  table = λ i. record {
    bytes = page;
    next = none;
    prev = none;
    dirty = false;
    pins = 0;
    page = pos 1;
    fd = pos 3;
  };
  hash_table = record { num_buckets = 20; buckets = λ b. if b == 4 then entry_of 0 ∷ [] else [] };
  num_pages = 1;
  page_size = 4096;
  first = some 0;
  last = some 0;
  free = none;
  address = λ i. pos i;
  files = tt;
}

abbrev pub table_of : Bytes → Table
table_of page = record {
  handle = record {
    hdr = record { first_free = list_end; num_pages = pos 2 };
    file_open = true;
    hdr_changed = false;
    unixfd = pos 3;
  };
  first_free = list_end;
  num_pages = 2;
  record_size = 1000;
  more_slots = 3;
  changed = false;
  pages = λ k. page;
}

only_page : (P : ℤ → Type 0) → P (pos 1) → (p : ℤ) → InTable 2 p → P p
only_page P one (pos k) (a, b) = subst (λ k. P (pos k)) (omega (arith, a, b)) one
only_page P one (negsuc k) none_such = absurd none_such

pub page_with-Holds :
    (free : ℕ) (a b c : ℕ × ℕ)
    → HoldsTable (table_of (page_with free a b c)) 1 (buffer_of (page_with free a b c))
unfolding get_num_slots is_valid_page_num find scan hash same_page read_int rem redbase.Base.◌+ℤ◌
page_with-Holds free a b c =
    let page = page_with free a b c in
    record {
      counted = refl;
      ready = record {
        is_open = refl;
        valid = only_page (λ p. is_valid_page_num (table_of page).handle p ≡ true) refl;
        held =
            only_page (λ p. IsHeld (pos 3) p 1 (buffer_of page))
              (record { slot = 0; found = refl; used = refl; few = omega arith });
      };
      content = λ k s u e. refl;
    }

abbrev pub no_floats : Floats
no_floats = record { lt = λ a b. false; eq = λ a b. false }

-- The scan of all records.
abbrev pub all_records : Predicate
all_records = record {
  attr_type = string;
  attr_length = 0;
  attr_offset = 0;
  comp_op = no_op;
  value = none;
}

-- An attribute of one character.
abbrev pub char_attr : ℤ → ℕ → DataAttrInfo
char_attr k name = record {
  offset = k;
  attr_type = string;
  attr_length = 1;
  index_no = negsuc 0;
  rel_name = [];
  attr_name = name ∷ [];
  func = no_f;
}

abbrev pub zeros : Bytes
zeros k = 0

abbrev pub rows_of : List DataAttrInfo → Iterator (FileScan Unit)
rows_of attrs = table_iterator ⦃os = disk⦄ no_floats zeros attrs

abbrev pub IsShut : Bytes → FileScan Unit → Type 0
IsShut page = IsIdle (table_of page) all_records [] 4

abbrev pub idle : Bytes → FileScan Unit
idle page = scan_of (table_of page) all_records [] 4 false (buffer_of page) first_current none

pub idle-IsShut :
    (free : ℕ) (a b c : ℕ × ℕ) → IsShut (page_with free a b c) (idle (page_with free a b c))
idle-IsShut free a b c = (buffer_of (page_with free a b c), none, page_with-Holds free a b c, refl)

abbrev pub row : List DataAttrInfo → Bytes → ℕ → Bytes
row attrs page i = set_tuple attrs (bytes_at (table_of page) 1 i)

-- The slots 0 and 2 have the records 1, 2 and 3, 4.
abbrev pub left_page : Bytes
left_page = page_with 10 (1, 2) (0, 0) (3, 4)

abbrev pub left_attrs : List DataAttrInfo
left_attrs = char_attr (pos 0) 97 ∷ char_attr (pos 1) 98 ∷ []

abbrev pub left_rows : List Bytes
left_rows = row left_attrs left_page 0 ∷ row left_attrs left_page 2 ∷ []

-- The slots 0, 1 and 2 have the records 4, 5 and 2, 6 and 4, 7.
abbrev pub right_page : Bytes
right_page = page_with 8 (4, 5) (2, 6) (4, 7)

abbrev pub right_attrs : List DataAttrInfo
right_attrs = char_attr (pos 0) 99 ∷ char_attr (pos 1) 100 ∷ []

abbrev pub right_rows : List Bytes
right_rows =
    row right_attrs right_page 0 ∷ row right_attrs right_page 1 ∷ row right_attrs right_page 2 ∷ []

pub left_Scans : Scans (rows_of left_attrs) left_rows (IsShut left_page)
unfolding table_rows tuples_of page_recs recs passes_all redbase.Record.Bitmap.test
    redbase.Record.Slot.slot_map get_num_slots from_buf
left_Scans =
    table_iterator-Scans ⦃os = disk⦄ no_floats zeros (table_of left_page) all_records [] left_attrs
      4 0 refl (omega arith)

pub right_Scans : Scans (rows_of right_attrs) right_rows (IsShut right_page)
unfolding table_rows tuples_of page_recs recs passes_all redbase.Record.Bitmap.test
    redbase.Record.Slot.slot_map get_num_slots from_buf
right_Scans =
    table_iterator-Scans ⦃os = disk⦄ no_floats zeros (table_of right_page) all_records []
      right_attrs 4 0 refl (omega arith)
