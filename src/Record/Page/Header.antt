-- ===== src/Record/Page/Header.antt =====
-- The header of a page in memory and in the page.
use redbase.Base.{ℕ, ◌+◌, ◌≤◌, ◌<◌, ◌≡◌, refl, arith, ◌∙◌, inl, inr}
use redbase.Bytes.Copies.{copy_at-inside, copy_at-outside}
use redbase.Bytes.Ints.{read_int-write_int}
use redbase.Bytes.{Bytes, copy_at, offset, write_int, IsInt}
use redbase.Record.Page.{PageHdr, mapsize, size, to_buf, from_buf}

-- The buffer after each of the writes of the three numbers.
abbrev first : PageHdr → Bytes → Bytes
first h buf = copy_at 0 4 (write_int h.next_free) buf

abbrev second : PageHdr → Bytes → Bytes
second h buf = copy_at 4 4 (write_int h.num_slots) (first h buf)

abbrev third : PageHdr → Bytes → Bytes
third h buf = copy_at 8 4 (write_int h.num_free_slots) (second h buf)

to_buf-third : (h : PageHdr) (buf : Bytes) (j : ℕ) → j < 12 → to_buf h buf j ≡ third h buf j
unfolding to_buf
to_buf-third h buf j l =
    copy_at-outside 12 (mapsize h.num_slots) h.free_slot_map (third h buf) j (inl l)

-- What the buffer holds at each part of the header.
to_buf-map :
    (h : PageHdr) (buf : Bytes) (i : ℕ)
    → i < mapsize h.num_slots
    → to_buf h buf (12 + i) ≡ h.free_slot_map i
unfolding to_buf
to_buf-map h buf i l =
    copy_at-inside 12 (mapsize h.num_slots) h.free_slot_map (third h buf) (12 + i) i refl l

to_buf-num_free_slots :
    (h : PageHdr) (buf : Bytes) (i : ℕ)
    → i < 4
    → to_buf h buf (8 + i) ≡ write_int h.num_free_slots i
to_buf-num_free_slots h buf i l =
    to_buf-third h buf (8 + i) (omega arith)
    ∙ copy_at-inside 8 4 (write_int h.num_free_slots) (second h buf) (8 + i) i refl l

to_buf-num_slots :
    (h : PageHdr) (buf : Bytes) (i : ℕ) → i < 4 → to_buf h buf (4 + i) ≡ write_int h.num_slots i
to_buf-num_slots h buf i l =
    to_buf-third h buf (4 + i) (omega arith)
    ∙ copy_at-outside 8 4 (write_int h.num_free_slots) (second h buf) (4 + i) (inl (omega arith))
    ∙ copy_at-inside 4 4 (write_int h.num_slots) (first h buf) (4 + i) i refl l

to_buf-next_free :
    (h : PageHdr) (buf : Bytes) (i : ℕ) → i < 4 → to_buf h buf i ≡ write_int h.next_free i
to_buf-next_free h buf i l =
    to_buf-third h buf i (omega arith)
    ∙ copy_at-outside 8 4 (write_int h.num_free_slots) (second h buf) i (inl (omega arith))
    ∙ copy_at-outside 4 4 (write_int h.num_slots) (first h buf) i (inl (omega arith))
    ∙ copy_at-inside 0 4 (write_int h.next_free) buf i i (omega arith) l

pub to_buf-behind :
    (h : PageHdr) (buf : Bytes) (j : ℕ) → size h.num_slots ≤ j → to_buf h buf j ≡ buf j
unfolding to_buf size
to_buf-behind h buf j l =
    copy_at-outside 12 (mapsize h.num_slots) h.free_slot_map (third h buf) j (inr l)
    ∙ copy_at-outside 8 4 (write_int h.num_free_slots) (second h buf) j (inr (omega arith))
    ∙ copy_at-outside 4 4 (write_int h.num_slots) (first h buf) j (inr (omega arith))
    ∙ copy_at-outside 0 4 (write_int h.next_free) buf j (inr (omega arith))

-- The two headers agree: their numbers and the bytes of their maps.
pub record Same (g h : PageHdr) : Type 0 where
  pub next_free : g.next_free ≡ h.next_free
  pub num_slots : g.num_slots ≡ h.num_slots
  pub num_free_slots : g.num_free_slots ≡ h.num_free_slots
  pub free_slot_map : (i : ℕ) → i < mapsize h.num_slots → g.free_slot_map i ≡ h.free_slot_map i

-- A header whose numbers are values of `int`, written to a page and read from it, is the same
-- whatever the page and the header that is read into held before; and the write leaves every byte
-- of the page behind the header alone.
pub from_buf-to_buf :
    (h g : PageHdr) (buf : Bytes)
    → IsInt h.next_free
    → IsInt h.num_slots
    → IsInt h.num_free_slots
    → Same (from_buf (to_buf h buf) g) h × ((j : ℕ) → size h.num_slots ≤ j → to_buf h buf j ≡ buf j)
unfolding from_buf
from_buf-to_buf h g buf a b c =
    let count =
      read_int-write_int h.num_slots (offset 4 (to_buf h buf)) b (to_buf-num_slots h buf) in
    (
      record {
        next_free = read_int-write_int h.next_free (to_buf h buf) a (to_buf-next_free h buf);
        num_slots = count;
        num_free_slots =
            read_int-write_int h.num_free_slots (offset 8 (to_buf h buf)) c
              (to_buf-num_free_slots h buf);
        free_slot_map = λ i l. rw (count) (
            copy_at-inside 0 (mapsize h.num_slots) (offset 12 (to_buf h buf)) g.free_slot_map i i
              (omega arith) l
            ∙ to_buf-map h buf i l);
      },
      to_buf-behind h buf,
    )
