-- ===== src/Record/File.antt =====
-- `RM_FileHandle` of src/rm.h and src/rm_filehandle.cc, over the file handle of the paged files.
pub mod Records
use redbase.Base.{
  ℕ, ◌+◌, ◌*◌, Bool, true, false, not, ◌&&◌, ◌||◌, Option, none, some, if◌then◌else◌, update, ℤ,
  pos, negsuc, pos_part, ◌+ℤ◌, ltb_ℤ, eqb_ℤ,
}
use redbase.Bytes.{Bytes, offset, copy_at}
use redbase.Paged.Buffer.{Buffer, Os}
use redbase.Paged.File.{
  State, Handle, PageHandle, get_this_page, alloc_page, mark_page, unpin, force_file, list_end,
}
use redbase.Paged.Outcome.{Outcome, ok, err, fault, Op, ◌>>=◌, ◌>>◌, pure, raise, modify}
use redbase.Record.Bitmap.{new_bitmap, set_all, test, to_char_buf}
use redbase.Record.Page.{
  PageHdr, slot_pointer, get_num_slots, new_page_hdr, to_buf, from_buf, rec_size_mismatch,
}
use redbase.Record.Rid.{Rid}
use redbase.Record.Slot.{slot_map, first_free_slot, take_slot, free_slot, put_record}

-- `RM_FileHdr`. The size of a record is taken not to be negative.
pub record RmHdr : Type 0 where
  pub first_free : ℤ
  pub num_pages : ℤ
  pub record_size : ℕ

-- The members of the handle, with the buffer that its `pfHandle` works on.
pub record RecordFile (F : Type 0) : Type 0 where
  pub pf : Option Handle
  pub buffer : Buffer F
  pub hdr : RmHdr
  pub file_open : Bool
  pub hdr_changed : Bool

-- The codes of src/rm_error.h that are used here.
abbrev pub no_rec_at_rid : ℤ
no_rec_at_rid = pos 102

abbrev pub not_open : ℤ
not_open = negsuc 106

abbrev pub bad_rid : ℤ
bad_rid = negsuc 107

module _ {F : Type 0} where
  -- A call of the paged file; without a handle it would go through a null pointer.
  abbrev pub on_file : {A : Type 0} → Op (State F) A → Op (RecordFile F) A
  on_file m s = elim s.pf [
    | none ↦ fault
    | some h ↦ elim (m (record { handle = h; buffer = s.buffer })) [
      | ok t a ↦ ok (record s { pf = some t.handle; buffer = t.buffer }) a
      | err t c ↦ err (record s { pf = some t.handle; buffer = t.buffer }) c
      | fault ↦ fault
    ]
  ]

  -- A call whose code is not looked at.
  abbrev pub ignore : {A : Type 0} → Op (RecordFile F) A → Op (RecordFile F) (Unit {0})
  ignore m s = elim (m s) [ ok t a ↦ ok t tt | err t c ↦ ok t tt | fault ↦ fault ]

  unfoldable pub is_valid : RecordFile F → ℤ
  unfolding get_num_slots
  is_valid s = elim s.pf [
    | none ↦ not_open
    | some _ ↦
        if not s.file_open
        then not_open
        else (if not (ltb_ℤ (pos 0) (get_num_slots s.hdr.record_size))
            then rec_size_mismatch
            else pos 0)
  ]

  abbrev pub when_ready : {A : Type 0} → Op (RecordFile F) A → Op (RecordFile F) A
  when_ready m s = if eqb_ℤ (is_valid s) (pos 0) then m s else err s (is_valid s)

  -- `GetNumSlots` of a handle that is ready.
  abbrev pub slots_of : RecordFile F → ℕ
  slots_of s = pos_part (get_num_slots s.hdr.record_size)

  unfoldable pub is_valid_page : RecordFile F → ℤ → Bool
  is_valid_page s page = s.file_open && not (ltb_ℤ page (pos 0)) && ltb_ℤ page s.hdr.num_pages

  unfoldable pub is_valid_rid : RecordFile F → Rid → Bool
  unfolding is_valid_page get_num_slots
  is_valid_rid s r =
      is_valid_page s r.page
      && not (ltb_ℤ r.slot (pos 0))
      && ltb_ℤ r.slot (get_num_slots s.hdr.record_size)

  -- The data that a page handle points to, and a write of them.
  abbrev pub data_of : PageHandle → RecordFile F → Bytes
  data_of ph s = offset 4 (s.buffer.table ph.slot).bytes

  abbrev pub write_data : PageHandle → Bytes → RecordFile F → RecordFile F
  write_data ph content s =
      let d = s.buffer.table ph.slot in
      record s {
        buffer = record s.buffer {
          table =
              update s.buffer.table ph.slot (record d { bytes = copy_at 4 4092 content d.bytes });
        };
      }

  abbrev pub set_first : ℤ → RecordFile F → RecordFile F
  set_first page s = record s { hdr = record s.hdr { first_free = page } }

module _ {F : Type 0} ⦃os : Os F⦄ (memory : Bytes) where
  -- `RM_PageHdr pHdr(…)` and `GetPageHeader`; `memory` is what `new` finds.
  abbrev pub header_of : PageHandle → RecordFile F → PageHdr
  header_of ph s =
      from_buf (data_of ph s) (new_page_hdr (get_num_slots s.hdr.record_size) (pos 0) memory)

  -- The header of the first page with free slots, if there is one.
  unfoldable pub first_header : Op (RecordFile F) PageHdr
  unfolding get_this_page mark_page unpin from_buf new_page_hdr get_num_slots
  first_header s =
      let page = s.hdr.first_free in
      if not (eqb_ℤ page list_end)
      then ((do
        ph ← on_file (get_this_page page)
        on_file (mark_page ph.page)
        on_file (unpin page)
        (λ t. ok t (header_of ph t)))
          s)
      else ok s (new_page_hdr (get_num_slots s.hdr.record_size) (pos 0) memory)

  -- The header of a new page: all slots are free.
  unfoldable pub blank_header : RecordFile F → PageHdr
  unfolding new_page_hdr new_bitmap set_all to_char_buf get_num_slots
  blank_header s =
      let h = new_page_hdr (get_num_slots s.hdr.record_size) list_end memory in
      record h {
        free_slot_map = to_char_buf (set_all (new_bitmap (slots_of s) memory)) h.free_slot_map;
      }

  -- `GetNextFreePage` from its allocation of a page on, with the read that it makes as a test.
  unfoldable pub add_page : Op (RecordFile F) ℤ
  unfolding alloc_page blank_header to_buf unpin get_this_page ◌+ℤ◌
  add_page = do
    ph ← on_file alloc_page
    modify (λ s. write_data ph (to_buf (blank_header s) (data_of ph s)) s)
    on_file (unpin ph.page)
    ignore (on_file (get_this_page ph.page))
    ignore (on_file (unpin ph.page))
    modify λ s. record s {
      hdr = record s.hdr { first_free = ph.page; num_pages = s.hdr.num_pages +ℤ pos 1 };
      hdr_changed = true;
    }
    pure ph.page

  unfoldable pub get_next_free_page : Op (RecordFile F) ℤ
  unfolding is_valid first_header add_page
  get_next_free_page = when_ready do
    h ← first_header
    (λ s.
        if eqb_ℤ s.hdr.num_pages (pos 1)
          || eqb_ℤ s.hdr.first_free list_end
          || eqb_ℤ h.num_free_slots (pos 0)
        then add_page s
        else ok s s.hdr.first_free)

  unfoldable pub get_next_free_slot : Op (RecordFile F) (PageHandle × ℤ × ℕ)
  unfolding is_valid get_next_free_page get_this_page unpin from_buf new_page_hdr slot_map
      first_free_slot get_num_slots
  get_next_free_slot = when_ready do
    page ← get_next_free_page
    ph ← on_file (get_this_page page)
    on_file (unpin page)
    (λ s. elim (first_free_slot (slots_of s) 0 (slot_map (slots_of s) memory (header_of ph s))) [
      | some slot ↦ ok s (ph, page, slot)
      | none ↦ err s (negsuc 0)
    ])
