-- ===== src/Record/Slot/Laws.antt =====
-- What insertion and deletion do to the free slots of a page.
use redbase.Base.{
  ℕ, suc, ◌<◌, ◌≡◌, refl, sym, ◌∙◌, ap, Bool, not, ◌&&◌, ◌||◌, ◌==◌, Bool-cases, inl, inr, ℤ, pos,
  negsuc, ◌+ℤ◌, eqb_ℤ, arith, subst,
}
use redbase.Bytes.{Bytes}
use redbase.Record.Bitmap.Laws.{test-set, test-reset, test-of_buf}
use redbase.Record.Bitmap.{Bitmap, test, set, reset, of_buf, to_char_buf}
use redbase.Record.Page.{PageHdr}
use redbase.Record.Slot.{slot_map, take_slot, free_slot, fully_used}

-- `j` is a free slot of the page.
abbrev pub is_free : ℕ → Bytes → PageHdr → ℕ → Bool
is_free slots memory h j = test j (slot_map slots memory h)

reset-size : (i : ℕ) (b : Bitmap) → (reset i b).size ≡ b.size
unfolding reset
reset-size i b = refl

set-size : (i : ℕ) (b : Bitmap) → (set i b).size ≡ b.size
unfolding set
set-size i b = refl

-- The maps that the two operations leave, whichever branch they take.
take_slot-map :
    (slots slot : ℕ) (memory : Bytes) (first : ℤ) (h : PageHdr)
    → (take_slot slots slot memory first h).0.free_slot_map
      ≡ to_char_buf (reset slot (slot_map slots memory h)) h.free_slot_map
unfolding take_slot
take_slot-map slots slot memory first h =
    elim (Bool-cases (eqb_ℤ (h.num_free_slots +ℤ negsuc 0) (pos 0))) [
      | inl e ↦ rw (e) refl
      | inr e ↦ rw (e) refl
    ]

free_slot-map :
    (slots slot : ℕ) (memory : Bytes) (page first : ℤ) (h : PageHdr)
    → (free_slot slots slot memory page first h).0.free_slot_map
      ≡ to_char_buf (set slot (slot_map slots memory h)) h.free_slot_map
unfolding free_slot
free_slot-map slots slot memory page first h = elim (Bool-cases (eqb_ℤ h.num_free_slots (pos 0))) [
  | inl e ↦ rw (e) refl
  | inr e ↦ rw (e) refl
]

-- The slots of a header whose map was copied from a bitmap.
is_free-copied :
    (slots : ℕ) (memory : Bytes) (h : PageHdr) (b : Bitmap) (buf : Bytes) (j : ℕ)
    → b.size ≡ slots
    → h.free_slot_map ≡ to_char_buf b buf
    → j < slots
    → is_free slots memory h j ≡ test j b
unfolding slot_map
is_free-copied slots memory h b buf j size e l =
    ap (λ m. test j (of_buf m slots memory)) e
    ∙ subst (λ n. test j (of_buf (to_char_buf b buf) n memory) ≡ test j b) size
        (test-of_buf b buf memory j (subst (λ n. j < n) (sym size) l))

-- `InsertRec` into a slot makes that slot taken and leaves the others as they were.
pub is_free-take_slot :
    (slots slot : ℕ) (memory : Bytes) (first : ℤ) (h : PageHdr) (j : ℕ)
    → j < slots
    → is_free slots memory (take_slot slots slot memory first h).0 j
      ≡ (not (j == slot) && is_free slots memory h j)
unfolding slot_map
is_free-take_slot slots slot memory first h j l =
    is_free-copied slots memory (take_slot slots slot memory first h).0
      (reset slot (slot_map slots memory h)) h.free_slot_map j
      (reset-size slot (slot_map slots memory h)) (take_slot-map slots slot memory first h) l
    ∙ test-reset slot j (slot_map slots memory h)

-- `DeleteRec` of a slot makes that slot free and leaves the others as they were.
pub is_free-free_slot :
    (slots slot : ℕ) (memory : Bytes) (page first : ℤ) (h : PageHdr) (j : ℕ)
    → j < slots
    → is_free slots memory (free_slot slots slot memory page first h).0 j
      ≡ (j == slot || is_free slots memory h j)
unfolding slot_map
is_free-free_slot slots slot memory page first h j l =
    is_free-copied slots memory (free_slot slots slot memory page first h).0
      (set slot (slot_map slots memory h)) h.free_slot_map j
      (set-size slot (slot_map slots memory h)) (free_slot-map slots slot memory page first h) l
    ∙ test-set slot j (slot_map slots memory h)

-- The numbers after an insertion into a page with one free slot, and with more.
pub take_slot-last :
    (slots slot : ℕ) (memory : Bytes) (first : ℤ) (h : PageHdr)
    → h.num_free_slots ≡ pos 1
    → ((take_slot slots slot memory first h).0.num_free_slots ≡ pos 0)
      × ((take_slot slots slot memory first h).0.next_free ≡ fully_used)
      × ((take_slot slots slot memory first h).1 ≡ h.next_free)
unfolding take_slot
take_slot-last slots slot memory first h e = rw (e) (refl, refl, refl)

pub take_slot-more :
    (slots slot k : ℕ) (memory : Bytes) (first : ℤ) (h : PageHdr)
    → h.num_free_slots ≡ pos (suc (suc k))
    → ((take_slot slots slot memory first h).0.num_free_slots ≡ pos (suc k))
      × ((take_slot slots slot memory first h).0.next_free ≡ h.next_free)
      × ((take_slot slots slot memory first h).1 ≡ first)
unfolding take_slot
take_slot-more slots slot k memory first h e = rw (e) (ground arith, ground arith, ground arith)

pub free_slot-full :
    (slots slot : ℕ) (memory : Bytes) (page first : ℤ) (h : PageHdr)
    → h.num_free_slots ≡ pos 0
    → ((free_slot slots slot memory page first h).0.num_free_slots ≡ pos 1)
      × ((free_slot slots slot memory page first h).0.next_free ≡ first)
      × ((free_slot slots slot memory page first h).1 ≡ page)
unfolding free_slot
free_slot-full slots slot memory page first h e = rw (e) (refl, refl, refl)

pub free_slot-some :
    (slots slot k : ℕ) (memory : Bytes) (page first : ℤ) (h : PageHdr)
    → h.num_free_slots ≡ pos (suc k)
    → ((free_slot slots slot memory page first h).0.num_free_slots ≡ pos (suc (suc k)))
      × ((free_slot slots slot memory page first h).0.next_free ≡ h.next_free)
      × ((free_slot slots slot memory page first h).1 ≡ first)
unfolding free_slot
free_slot-some slots slot k memory page first h e =
    rw (e) (ground arith, ground arith, ground arith)
