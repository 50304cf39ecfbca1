-- ===== src/Record/File/Records.antt =====
-- The operations on records: `InsertRec`, `DeleteRec`, `UpdateRec`, `GetRec` and `ForcePages`.
use redbase.Base.{ℕ, not, ◌&&◌, if◌then◌else◌, ℤ, pos, negsuc, pos_part, eqb_ℤ}
use redbase.Bytes.{Bytes, offset}
use redbase.Paged.Buffer.{Os}
use redbase.Paged.File.{PageHandle, get_this_page, mark_page, unpin, force_file}
use redbase.Paged.Outcome.{ok, err, Op, ◌>>=◌, ◌>>◌, pure, modify}
use redbase.Record.Bitmap.{test}
use redbase.Record.Page.{slot_pointer, get_num_slots, new_page_hdr, to_buf, from_buf}
use redbase.Record.Rid.{Rid}
use redbase.Record.Slot.{slot_map, take_slot, free_slot, put_record}
use redbase.Record.File.{
  RecordFile, on_file, is_valid, when_ready, slots_of, is_valid_page, is_valid_rid, data_of,
  write_data, set_first, header_of, get_next_free_slot, no_rec_at_rid, bad_rid,
}

module _ {F : Type 0} ⦃os : Os F⦄ (memory : Bytes) where
  -- `InsertRec` of a record that is not a null pointer.
  unfoldable pub insert_rec : Bytes → Op (RecordFile F) Rid
  unfolding is_valid get_next_free_slot take_slot put_record to_buf from_buf new_page_hdr
      get_num_slots
  insert_rec bytes = when_ready do
    found ← get_next_free_slot memory
    (λ s.
        let (ph, page, slot) = found in
        let (h, first) =
          take_slot (slots_of s) slot memory s.hdr.first_free (header_of memory ph s) in
        let filled = put_record (slots_of s) s.hdr.record_size slot bytes (data_of ph s) in
        ok (set_first first (write_data ph (to_buf h filled) s))
          (record { page = page; slot = pos slot }))

  -- The page of a record, as `DeleteRec` and `UpdateRec` get it: it will be written.
  unfoldable pub open_page : ℤ → Op (RecordFile F) PageHandle
  unfolding get_this_page mark_page unpin
  open_page page = do
    ph ← on_file (get_this_page page)
    on_file (mark_page page)
    on_file (unpin page)
    pure ph

  abbrev pub when_rid : {A : Type 0} → Rid → Op (RecordFile F) A → Op (RecordFile F) A
  when_rid r m s = if not (is_valid_rid s r) then err s bad_rid else m s

  -- The test that the slot holds a record.
  abbrev pub when_taken : {A : Type 0} → PageHandle → ℕ → Op (RecordFile F) A → Op (RecordFile F) A
  when_taken ph slot m s =
      if test slot (slot_map (slots_of s) memory (header_of memory ph s))
      then err s no_rec_at_rid
      else m s

  unfoldable pub delete_rec : Rid → Op (RecordFile F) (Unit {0})
  unfolding is_valid is_valid_rid open_page free_slot to_buf from_buf new_page_hdr get_num_slots
      slot_map test
  delete_rec r = when_ready (
      when_rid r do
        ph ← open_page r.page
        when_taken ph (pos_part r.slot) (
            modify λ s.
              let (h, first) =
                free_slot (slots_of s) (pos_part r.slot) memory r.page s.hdr.first_free
                  (header_of memory ph s) in
              set_first first (write_data ph (to_buf h (data_of ph s)) s)))

  -- `UpdateRec` of a record with its bytes and its identifier.
  unfoldable pub update_rec : Rid → Bytes → Op (RecordFile F) (Unit {0})
  unfolding is_valid is_valid_rid open_page put_record from_buf new_page_hdr get_num_slots slot_map
      test
  update_rec r bytes = when_ready (
      when_rid r do
        ph ← open_page r.page
        when_taken ph (pos_part r.slot) (
            modify λ s.
              write_data ph
                (put_record (slots_of s) s.hdr.record_size (pos_part r.slot) bytes (data_of ph s))
                s))

  -- `GetRec`: the bytes from the slot on.
  unfoldable pub get_rec : Rid → Op (RecordFile F) Bytes
  unfolding is_valid is_valid_rid get_this_page unpin slot_pointer from_buf new_page_hdr
      get_num_slots slot_map test
  get_rec r = when_ready (
      when_rid r do
        ph ← on_file (get_this_page r.page)
        on_file (unpin r.page)
        when_taken ph (pos_part r.slot) (λ s. ok s (
            offset (slot_pointer (pos (slots_of s)) s.hdr.record_size (pos_part r.slot))
              (data_of ph s))))

  -- The page number -1 stands for all pages.
  unfoldable pub force_rec_pages : ℤ → Op (RecordFile F) (Unit {0})
  unfolding is_valid is_valid_page force_file
  force_rec_pages page = when_ready λ s.
      if not (is_valid_page s page) && not (eqb_ℤ page (negsuc 0))
      then err s bad_rid
      else on_file (force_file page) s
