-- ===== src/Tests/Records.antt =====
-- A bitmap, and pages for records of 100 bytes.
use redbase.Base.{ℕ, ◌+◌, ◌≤◌, ◌≡◌, refl, arith, pos, negsuc}
use redbase.Record.Bitmap.Laws
use redbase.Record.Bitmap.{Bitmap, test, of_buf, to_char_buf, num_chars}
use redbase.Record.Page.Header
use redbase.Record.Page.Slots
use redbase.Record.Page.{
  PageHdr, page_size, get_num_slots, fit_slots, size, slot_pointer, to_buf, from_buf,
}

abbrev bits : Bitmap
bits = record { size = 20; buffer = λ k. 5 }

test-of_buf_example : test 18 (of_buf (to_char_buf bits (λ k. 7)) 20 (λ k. 9)) ≡ test 18 bits
test-of_buf_example = Laws.test-of_buf bits (λ k. 7) (λ k. 9) 18 (omega arith)

slots_100 : get_num_slots 100 ≡ pos 40
unfolding get_num_slots fit_slots num_chars
slots_100 = refl

get_num_slots-IsMost_example : (n : ℕ) × (get_num_slots 100 ≡ pos n) × Slots.IsMost 100 n
get_num_slots-IsMost_example = Slots.get_num_slots-IsMost 100 (omega arith)

slot_pointer_lem_example :
    (size (pos 40) ≤ slot_pointer (pos 40) 100 3)
    × (slot_pointer (pos 40) 100 3 + 100 ≤ slot_pointer (pos 40) 100 7)
    × (slot_pointer (pos 40) 100 3 + 100 ≤ page_size)
slot_pointer_lem_example =
    Slots.slot_pointer_lem 100 40 3 7 (omega arith) slots_100 (omega arith) (omega arith)

abbrev header : PageHdr
header = record {
  next_free = negsuc 0;
  free_slot_map = λ k. 255;
  num_slots = pos 40;
  num_free_slots = pos 38;
}

abbrev other : PageHdr
other = record {
  next_free = pos 0;
  free_slot_map = λ k. 0;
  num_slots = pos 7;
  num_free_slots = pos 0;
}

from_buf-to_buf_example :
    Header.Same (from_buf (to_buf header (λ k. 1)) other) header
    × ((j : ℕ) → size (pos 40) ≤ j → to_buf header (λ k. 1) j ≡ 1)
from_buf-to_buf_example =
    Header.from_buf-to_buf header other (λ k. 1) (omega arith) (omega arith) (omega arith)
