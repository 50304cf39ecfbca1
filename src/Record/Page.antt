-- ===== src/Record/Page.antt =====
-- The layout of a page of a record file: `RM_PageHdr` of src/rm.h, and `GetNumSlots` and
-- `GetSlotPointer` of src/rm_filehandle.cc. The size of a record is taken not to be negative.
pub mod Slots
pub mod Header
use redbase.Base.{ℕ, zero, suc, ◌+◌, ◌-◌, ◌*◌, ◌/◌, if◌then◌else◌, ltb, ◌==◌, ℤ, pos, negsuc}
use redbase.Bytes.{Bytes, copy_at, offset, word, read_int, write_int}
use redbase.Record.Bitmap.{num_chars}

-- `PF_PAGE_SIZE`.
abbrev pub page_size : ℕ
page_size = 4092

-- `sizeof(RM_PageHdr)`, with pointers of 8 bytes.
abbrev pub struct_size : ℕ
struct_size = 24

-- `RM_RECSIZEMISMATCH`.
abbrev pub rec_size_mismatch : ℤ
rec_size_mismatch = negsuc 103

-- The loop of `GetNumSlots`. No slots at all always fit.
unfoldable pub fit_slots : ℕ → ℕ → ℕ
unfolding num_chars
fit_slots record_size zero = zero
fit_slots record_size (suc n) =
    let rest = fit_slots record_size n in
    if ltb page_size (suc n * record_size + (struct_size + num_chars (suc n))) then rest else suc n

-- `GetNumSlots`; the quotient `1/8` in it is 0.
unfoldable pub get_num_slots : ℕ → ℤ
unfolding fit_slots
get_num_slots record_size =
    if record_size == 0
    then rec_size_mismatch
    else pos (fit_slots record_size ((page_size - struct_size) / record_size))

pub record PageHdr : Type 0 where
  pub next_free : ℤ
  pub free_slot_map : Bytes
  pub num_slots : ℤ
  pub num_free_slots : ℤ

-- The constructor; `memory` is what `new` finds, and what `nextFree` holds.
unfoldable pub new_page_hdr : ℤ → ℤ → Bytes → PageHdr
new_page_hdr num_slots next_free memory = record {
  next_free = next_free;
  free_slot_map = memory;
  num_slots = num_slots;
  num_free_slots = num_slots;
}

-- `mapsize` and `size`.
unfoldable pub mapsize : ℤ → ℕ
unfolding word num_chars
mapsize num_slots = num_chars (word num_slots)

unfoldable pub size : ℤ → ℕ
unfolding mapsize
size num_slots = 12 + mapsize num_slots

unfoldable pub to_buf : PageHdr → Bytes → Bytes
unfolding copy_at write_int mapsize
to_buf h buf = copy_at 12 (mapsize h.num_slots) h.free_slot_map (
    copy_at 8 4 (write_int h.num_free_slots)
      (copy_at 4 4 (write_int h.num_slots) (copy_at 0 4 (write_int h.next_free) buf)))

-- `from_buf` into a header that exists; the map is as long as the count that was read says.
unfoldable pub from_buf : Bytes → PageHdr → PageHdr
unfolding copy_at read_int mapsize
from_buf buf h = record {
  next_free = read_int buf;
  num_slots = read_int (offset 4 buf);
  num_free_slots = read_int (offset 8 buf);
  free_slot_map = copy_at 0 (mapsize (read_int (offset 4 buf))) (offset 12 buf) h.free_slot_map;
}

-- Where `GetSlotPointer` finds a slot, from the start of the page's data.
unfoldable pub slot_pointer : ℤ → ℕ → ℕ → ℕ
unfolding size
slot_pointer num_slots record_size slot = size num_slots + slot * record_size
