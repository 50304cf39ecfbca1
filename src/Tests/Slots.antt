-- ===== src/Tests/Slots.antt =====
-- The free slots of a page.
use redbase.Base.{ℕ, ◌<◌, ◌≢◌, ◌≡◌, refl, arith, pos, negsuc, true}
use redbase.Record.Bitmap.{Bitmap, test, num_chars}
use redbase.Record.Page.{PageHdr, get_num_slots, fit_slots, to_buf}
use redbase.Record.Slot.Laws
use redbase.Record.Slot.Contents
use redbase.Record.Slot.Reuse
use redbase.Record.Slot.{put_record, take_slot, free_slot, slot_map}

-- A page with 40 slots of which the first two are taken.
abbrev partly : PageHdr
partly = record {
  next_free = negsuc 0;
  free_slot_map = λ k. 252;
  num_slots = pos 40;
  num_free_slots = pos 38;
}

abbrev bits : Bitmap
bits = record { size = 20; buffer = λ k. 40 }

slot_2 : Laws.is_free 40 (λ k. 0) partly 2 ≡ true
unfolding slot_map test
slot_2 = refl

free_slot-take_slot_example :
    Reuse.Restores 40
      (λ k. 0)
      (pos 1)
      partly
      (free_slot 40 2
        (λ k. 0)
        (pos 1)
        (take_slot 40 2 (λ k. 0) (pos 1) partly).1
        (take_slot 40 2 (λ k. 0) (pos 1) partly).0).0
      (free_slot 40 2
        (λ k. 0)
        (pos 1)
        (take_slot 40 2 (λ k. 0) (pos 1) partly).1
        (take_slot 40 2 (λ k. 0) (pos 1) partly).0).1
free_slot-take_slot_example = Reuse.free_slot-take_slot 40 2 37 (λ k. 0) (pos 1) partly slot_2 refl

slots_of_100 : get_num_slots 100 ≡ pos 40
unfolding get_num_slots fit_slots num_chars
slots_of_100 = refl

put_record_lem_example :
    ((i : ℕ)
      → i < 100
      → to_buf partly (put_record 40 100 2 (λ k. 9) (λ k. 1)) (Contents.place 40 100 2 i) ≡ 9)
    × ((t i : ℕ)
        → t < 40
        → t ≢ 2
        → i < 100
        → to_buf partly (put_record 40 100 2 (λ k. 9) (λ k. 1)) (Contents.place 40 100 t i) ≡ 1)
put_record_lem_example =
    Contents.put_record_lem 100 40 2 partly (λ k. 9) (λ k. 1) (omega arith) slots_of_100 refl
      (omega arith)
