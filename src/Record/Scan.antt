-- ===== src/Record/Scan.antt =====
-- `RM_Record` of src/rm_record.cc and `RM_FileScan` of src/rm_filescan.cc over a record file.
pub mod Held
pub mod Slots
pub mod Rows
use redbase.Base.{
  ℕ, zero, suc, ◌+◌, ◌-◌, Bool, true, false, not, ◌||◌, ◌&&◌, ◌==◌, leb, Option, none, some,
  if◌then◌else◌, ℤ, pos, negsuc, pos_part, neg_part, ◌+ℤ◌, eqb_ℤ,
}
use redbase.Bytes.{Bytes, Floats}
use redbase.Paged.Buffer.{Os}
use redbase.Paged.File.{get_this_page, unpin}
use redbase.Paged.Outcome.{Outcome, ok, err, fault, Op, ◌>>=◌, ◌>>◌, pure, raise, modify}
use redbase.Predicate.{Predicate, eval}
use redbase.Record.Bitmap.{test}
use redbase.Record.File.Records.{get_rec}
use redbase.Record.File.{RecordFile, on_file, is_valid, slots_of, header_of, not_open}
use redbase.Record.Page.{page_size, rec_size_mismatch, from_buf, new_page_hdr, get_num_slots}
use redbase.Record.Rid.{Rid, null_rid}
use redbase.Record.Slot.{slot_map}
use redbase.Types.{AttrType, int, float, string, CompOp}

-- The codes of src/rm_error.h that are used here.
abbrev pub handle_open : ℤ
handle_open = negsuc 104

abbrev pub create_fail : ℤ
create_fail = negsuc 105

abbrev pub rm_eof : ℤ
rm_eof = negsuc 108

-- A scan with the file that it points to, and the record that its caller passes to `GetNextRec`, which
-- has no data before the first read.
pub record RmFileScan (F : Type 0) : Type 0 where
  pub pred : Option Predicate
  pub file : Option (RecordFile F)
  pub current : Rid
  pub is_open : Bool
  pub rec : Option (Bytes × Rid)

abbrev pub first_current : Rid
first_current = record { page = pos 1; slot = negsuc 0 }

-- The test of a length for a type.
unfoldable pub fits_type : AttrType → ℕ → Bool
fits_type int n = n == 4
fits_type float n = n == 4
fits_type string n = not (n == 0) && leb n 255

-- `GetRid` of a record without data leaves the null identifier in place.
abbrev pub rid_of : Option (Bytes × Rid) → Rid
rid_of none = null_rid
rid_of (some r) = r.1

module _ {F : Type 0} where
  unfoldable pub new_scan : RmFileScan F
  new_scan = record {
    pred = none;
    file = none;
    current = first_current;
    is_open = false;
    rec = none;
  }

  -- A length and an offset are taken not to be negative. An operator or a type out of range is no value
  -- of the model.
  unfoldable pub open_scan :
      RecordFile F → AttrType → ℕ → ℕ → CompOp → Option Bytes → Op (RmFileScan F) (Unit {0})
  unfolding is_valid fits_type
  open_scan file type len offset op value s =
      let s' = record s { file = some file } in
      let p : Predicate = record {
        attr_type = type;
        attr_length = len;
        attr_offset = offset;
        comp_op = op;
        value = value;
      } in
      let opened = ok (record s' { is_open = true; pred = some p }) tt in
      if s.is_open
      then err s handle_open
      else if not (eqb_ℤ (is_valid file) (pos 0))
      then err s' create_fail
      else elim value [
        | none ↦ opened
        | some v ↦
            if leb (page_size - 8) len || len == 0
            then err s' rec_size_mismatch
            else if not (fits_type type len)
            then err s' create_fail
            else if leb file.hdr.record_size offset
            then err s' create_fail
            else opened
      ]

  unfoldable pub close_scan : Op (RmFileScan F) (Unit {0})
  close_scan s =
      if not s.is_open
      then err s not_open
      else ok (record s { is_open = false; current = first_current }) tt

  unfoldable pub reset_state : RmFileScan F → RmFileScan F
  reset_state s = record s { current = first_current }

  -- `IsOpen`
  unfoldable pub scan_is_open : RmFileScan F → Bool
  scan_is_open s = elim s.pred [
    | none ↦ false
    | some p ↦ elim s.file [ none ↦ false | some h ↦ s.is_open ]
  ]

  -- A call of the record file; without a file it would go through a null pointer.
  abbrev pub on_records : {A : Type 0} → Op (RecordFile F) A → Op (RmFileScan F) A
  on_records m s = elim s.file [
    | none ↦ fault
    | some h ↦ elim (m h) [
      | ok t a ↦ ok (record s { file = some t }) a
      | err t c ↦ err (record s { file = some t }) c
      | fault ↦ fault
    ]
  ]

  -- `prmh->GetNumPages()` and `prmh->GetNumSlots()`
  abbrev pub num_pages_of : RmFileScan F → ℤ
  num_pages_of s = elim s.file [ none ↦ pos 0 | some h ↦ h.hdr.num_pages ]

  abbrev pub num_slots_of : RmFileScan F → ℕ
  num_slots_of s = elim s.file [ none ↦ 0 | some h ↦ slots_of h ]

  -- The predicate on the record. With a value and without data it would read a null pointer.
  unfoldable pub matches : Floats → Op (RmFileScan F) Bool
  unfolding eval
  matches f s = elim s.pred [
    | none ↦ fault
    | some p ↦ elim s.rec [
      | some r ↦ ok s (eval f p r.0 none p.comp_op)
      | none ↦ elim p.value [ none ↦ ok s true | some v ↦ fault ]
    ]
  ]

module _ {F : Type 0} ⦃os : Os F⦄ (f : Floats) (memory : Bytes) where
  -- The read of a record into the caller's; its code is not looked at.
  unfoldable pub read_rec : Rid → RmFileScan F → Outcome (RmFileScan F) (Unit {0})
  unfolding get_rec
  read_rec r s = elim (on_records (get_rec memory r) s) [
    | ok t bytes ↦ ok (record t { rec = some (bytes, r) }) tt
    | err t c ↦ ok t tt
    | fault ↦ fault
  ]

  -- A slot that is not free: whether its record passes.
  unfoldable pub try_slot : ℤ → ℕ → Op (RmFileScan F) Bool
  unfolding read_rec matches
  try_slot page i = do
    modify (λ s. record s { current = record { page = page; slot = pos i } })
    read_rec (record { page = page; slot = pos i })
    matches f

  -- The loop over `n` slots from `i` on, with the bitmap of the page as it was when it was read.
  unfoldable pub scan_slots : ℕ → (ℕ → Bool) → ℤ → ℕ → Op (RmFileScan F) Bool
  unfolding try_slot
  scan_slots zero is_free page i = pure false
  scan_slots (suc n) is_free page i =
      let rest = scan_slots n is_free page (suc i) in
      if is_free i then rest else (try_slot page i >>= λ found. if found then pure true else rest)

  -- The first slot to look at; below 0 it is no slot of the bitmap.
  from_slot : ℤ → (ℕ → Bool) → ℤ → Op (RmFileScan F) Bool
  unfolding scan_slots
  from_slot (pos i) is_free page s = scan_slots (num_slots_of s - i) is_free page i s
  from_slot (negsuc i) is_free page s = fault

  pub page_map : ℤ → Op (RmFileScan F) (ℕ → Bool)
  unfolding get_this_page unpin slot_map from_buf new_page_hdr get_num_slots test
  page_map page = on_records do
    ph ← on_file (get_this_page page)
    on_file (unpin page)
    (λ h. ok h (λ i. test i (slot_map (slots_of h) memory (header_of memory ph h))))

  unfoldable pub scan_page : ℤ → Op (RmFileScan F) Bool
  unfolding page_map from_slot ◌+ℤ◌
  scan_page page = do
    is_free ← page_map page
    (λ s.
        from_slot (if eqb_ℤ s.current.page page then s.current.slot +ℤ pos 1 else pos 0) is_free
          page s)

  unfoldable pub scan_pages : ℕ → ℤ → Op (RmFileScan F) (Unit {0})
  unfolding scan_page ◌+ℤ◌
  scan_pages zero page = raise rm_eof
  scan_pages (suc n) page =
      let rest = scan_pages n (page +ℤ pos 1) in
      scan_page page >>= λ found. if found then pure tt else rest

  -- The number of rounds of the loop over the pages, which does not change the number of pages.
  abbrev pub pages_left : RmFileScan F → ℕ
  pages_left s =
      pos_part (num_pages_of s)
      + neg_part s.current.page
      - (pos_part s.current.page + neg_part (num_pages_of s))

  unfoldable pub get_next_rec : Op (RmFileScan F) (Unit {0})
  unfolding scan_pages
  get_next_rec s =
      if not s.is_open then err s not_open else scan_pages (pages_left s) s.current.page s

  -- `GotoPage`: the code of `GetNextRec` is not looked at.
  unfoldable pub goto_page : ℤ → Op (RmFileScan F) (Unit {0})
  unfolding get_next_rec ◌+ℤ◌
  goto_page page s =
      let before = record s { current = record { page = page; slot = negsuc 0 }; rec = none } in
      if not s.is_open then err s not_open else elim (get_next_rec before) [
        | ok t a ↦ ok (to_slot t) tt
        | err t c ↦ ok (to_slot t) tt
        | fault ↦ fault
      ]
    where
      to_slot : RmFileScan F → RmFileScan F
      to_slot t = record t {
        current = record { page = page; slot = (rid_of t.rec).slot +ℤ negsuc 0 };
        rec = s.rec;
      }
