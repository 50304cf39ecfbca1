-- ===== src/Record/Slot/Reuse.antt =====
-- Which slot an insertion takes, and a deletion right after an insertion.
use redbase.Base.{
  by_==, ℕ, zero, suc, ◌+◌, ◌≤◌, ◌<◌, ◌≡◌, refl, sym, ◌∙◌, ap, Option, none, some, Bool, true,
  false, not, ◌&&◌, ◌||◌, ◌==◌, Bool-cases, inl, inr, ℤ, pos, arith, lt-cases, subst,
}
use redbase.Bytes.{Bytes}
use redbase.Record.Bitmap.{Bitmap, test}
use redbase.Record.Page.{PageHdr}
use redbase.Record.Slot.Laws.{
  is_free, is_free-take_slot, is_free-free_slot, take_slot-last, take_slot-more, free_slot-full,
  free_slot-some,
}
use redbase.Record.Slot.{take_slot, free_slot, first_free_slot}

-- The answer of a search for the first free slot from `i` on among the next `left` slots.
abbrev pub IsFirst : Bitmap → ℕ → ℕ → Option ℕ → Type 0
IsFirst b i left none = (j : ℕ) → i ≤ j → j < i + left → test j b ≡ false
IsFirst b i left (some s) =
    (i ≤ s) × (s < i + left) × (test s b ≡ true) × ((j : ℕ) → i ≤ j → j < s → test j b ≡ false)

later :
    (b : Bitmap) (i left : ℕ) (o : Option ℕ)
    → test i b ≡ false
    → IsFirst b (i + 1) left o
    → IsFirst b i (suc left) o
later b i left none e h = λ j l m. elim (lt-cases i j) [
  | inl n ↦ h j (omega arith) (omega arith)
  | inr (inl q) ↦ subst (λ k. test k b ≡ false) q e
  | inr (inr n) ↦ absurd (omega arith)
]
later b i left (some s) e (a, c, t, h) = (
  omega arith,
  omega arith,
  t,
  λ j l m. elim (lt-cases i j) [
    | inl n ↦ h j (omega arith) m
    | inr (inl q) ↦ subst (λ k. test k b ≡ false) q e
    | inr (inr n) ↦ absurd (omega arith)
  ],
)

-- The search of `GetNextFreeSlot` finds the first free slot among those that it looks at, and fails
-- exactly when none of them is free.
pub first_free_slot-IsFirst :
    (left i : ℕ) (b : Bitmap) → IsFirst b i left (first_free_slot left i b)
unfolding first_free_slot
first_free_slot-IsFirst zero i b = λ j l m. absurd (omega arith)
first_free_slot-IsFirst (suc left) i b = elim (Bool-cases (test i b)) [
  | inl e ↦ rw (e) (omega arith, omega arith, e, λ j l m. absurd (omega arith))
  | inr e ↦
      rw (e)
        (later b i left (first_free_slot left (i + 1) b) e (first_free_slot-IsFirst left (i + 1) b))
]

-- The header `h'` and the first free page `first'`, after both operations, are `h` and `page`, on
-- which the free list starts.
pub record Restores (slots : ℕ) (memory : Bytes) (page : ℤ) (h h' : PageHdr) (first' : ℤ)
    : Type 0 where
  pub bits : (j : ℕ) → j < slots → is_free slots memory h' j ≡ is_free slots memory h j
  pub count : h'.num_free_slots ≡ h.num_free_slots
  pub link : h'.next_free ≡ h.next_free
  pub first : first' ≡ page

back : (f : ℕ → Bool) (j s : ℕ) → f s ≡ true → (j == s || (not (j == s) && f j)) ≡ f j
back f j s e = elim (Bool-cases (j == s)) [
  | inl q ↦ rw (q) (sym (subst (λ k. f k ≡ true) (sym (by_== q)) e))
  | inr q ↦ rw (q) refl
]

both_bits :
    (slots slot : ℕ) (memory : Bytes) (page first : ℤ) (h : PageHdr)
    → is_free slots memory h slot ≡ true
    → (j : ℕ) → j < slots
    → is_free slots memory
        (free_slot slots slot memory page first (take_slot slots slot memory page h).0).0
        j
      ≡ is_free slots memory h j
both_bits slots slot memory page first h e j l =
    is_free-free_slot slots slot memory page first (take_slot slots slot memory page h).0 j l
    ∙ ap (λ t. j == slot || t) (is_free-take_slot slots slot memory page h j l)
    ∙ back (is_free slots memory h) j slot e

-- On the page that the free list of the file starts with, the deletion of a record right after its
-- insertion into a free slot restores the free slots, their number, the link to the next free page
-- and the start of the list, also when the page was full in between and so off the list.
pub free_slot-take_slot :
    (slots slot k : ℕ) (memory : Bytes) (page : ℤ) (h : PageHdr)
    → is_free slots memory h slot ≡ true
    → h.num_free_slots ≡ pos (suc k)
    → let (taken, first) = take_slot slots slot memory page h in
      let (freed, first') = free_slot slots slot memory page first taken in
      Restores slots memory page h freed first'
free_slot-take_slot slots slot zero memory page h e n =
    let (taken, first) = take_slot slots slot memory page h in
    let (none_left, _, next) = take_slot-last slots slot memory page h n in
    let (one, link, start) = free_slot-full slots slot memory page first taken none_left in
    record {
      bits = both_bits slots slot memory page first h e;
      count = one ∙ sym n;
      link = link ∙ next;
      first = start;
    }
free_slot-take_slot slots slot (suc k) memory page h e n =
    let (taken, first) = take_slot slots slot memory page h in
    let (left, link, same) = take_slot-more slots slot k memory page h n in
    let (count, link', start) = free_slot-some slots slot k memory page first taken left in
    record {
      bits = both_bits slots slot memory page first h e;
      count = count ∙ sym n;
      link = link' ∙ link;
      first = start ∙ same;
    }
