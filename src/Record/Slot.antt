-- ===== src/Record/Slot.antt =====
-- The work of `RM_FileHandle` of src/rm_filehandle.cc on the data of one page: a record is put into a
-- slot, a slot is freed, the first free slot is looked for.
pub mod Laws
pub mod Reuse
pub mod Contents
use redbase.Base.{ℕ, zero, suc, ◌+◌, Option, none, some, if◌then◌else◌, ℤ, pos, negsuc, ◌+ℤ◌, eqb_ℤ}
use redbase.Bytes.{Bytes, copy_at}
use redbase.Record.Bitmap.{Bitmap, test, set, reset, of_buf, to_char_buf}
use redbase.Record.Page.{PageHdr, slot_pointer}

-- `RM_PAGE_FULLY_USED`.
abbrev pub fully_used : ℤ
fully_used = negsuc 1

-- `bitmap b(pHdr.freeSlotMap, …)`; `memory` is what `new` finds.
unfoldable pub slot_map : ℕ → Bytes → PageHdr → Bitmap
unfolding of_buf
slot_map slots memory h = of_buf h.free_slot_map slots memory

-- The loop of `GetNextFreeSlot`, with the number of slots that are left.
unfoldable pub first_free_slot : ℕ → ℕ → Bitmap → Option ℕ
unfolding test
first_free_slot zero i b = none
first_free_slot (suc left) i b =
    let rest = first_free_slot left (i + 1) b in if test i b then some i else rest

-- The header after `InsertRec` into a slot, and the first free page of the file, `first`.
unfoldable pub take_slot : ℕ → ℕ → Bytes → ℤ → PageHdr → PageHdr × ℤ
unfolding slot_map reset to_char_buf ◌+ℤ◌
take_slot slots slot memory first h =
    let map = to_char_buf (reset slot (slot_map slots memory h)) h.free_slot_map in
    let left = h.num_free_slots +ℤ negsuc 0 in
    if eqb_ℤ left (pos 0)
    then (
      record h { free_slot_map = map; num_free_slots = left; next_free = fully_used },
      h.next_free,
    )
    else (record h { free_slot_map = map; num_free_slots = left }, first)

-- The header after `DeleteRec` of a slot on page `page`, and the first free page of the file.
unfoldable pub free_slot : ℕ → ℕ → Bytes → ℤ → ℤ → PageHdr → PageHdr × ℤ
unfolding slot_map set to_char_buf ◌+ℤ◌
free_slot slots slot memory page first h =
    let map = to_char_buf (set slot (slot_map slots memory h)) h.free_slot_map in
    let more = h.num_free_slots +ℤ pos 1 in
    if eqb_ℤ h.num_free_slots (pos 0)
    then (record h { free_slot_map = map; num_free_slots = more; next_free = first }, page)
    else (record h { free_slot_map = map; num_free_slots = more }, first)

-- `memcpy` of a record to its slot.
unfoldable pub put_record : ℕ → ℕ → ℕ → Bytes → Bytes → Bytes
unfolding copy_at slot_pointer
put_record slots record_size slot bytes page =
    copy_at (slot_pointer (pos slots) record_size slot) record_size bytes page
