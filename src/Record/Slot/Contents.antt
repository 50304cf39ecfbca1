-- ===== src/Record/Slot/Contents.antt =====
-- The records of a page after `InsertRec` or `UpdateRec` of one of them.
use redbase.Base.{
  ℕ, suc, ◌+◌, ◌≤◌, ◌<◌, ◌≡◌, ◌≢◌, refl, ◌∙◌, arith, pos, ◌⊎◌, inl, inr, lt-cases, subst, sym,
}
use redbase.Bytes.Copies.{copy_at-inside, copy_at-outside}
use redbase.Bytes.{Bytes}
use redbase.Record.Page.Header.{to_buf-behind}
use redbase.Record.Page.Slots.{slot_pointer_lem}
use redbase.Record.Page.{PageHdr, get_num_slots, size, slot_pointer, to_buf}
use redbase.Record.Slot.{put_record}

-- The byte `i` of slot `t`, from the start of the data of a page with `n` slots.
abbrev pub place : ℕ → ℕ → ℕ → ℕ → ℕ
place n r t i = slot_pointer (pos n) r t + i

-- The header does not reach into a slot.
behind :
    (r n t i : ℕ) (h : PageHdr) (page : Bytes)
    → 0 < r
    → get_num_slots r ≡ pos n
    → h.num_slots ≡ pos n
    → t < n
    → to_buf h page (place n r t i) ≡ page (place n r t i)
behind r n t i h page p e c l =
    let (after, _, _) = slot_pointer_lem r n t (suc t) p e l (omega arith) in
    to_buf-behind h page (place n r t i) (subst (λ z. size z ≤ place n r t i) (sym c) (omega arith))

-- A slot does not reach into another.
apart :
    (r n s t i : ℕ)
    → 0 < r
    → get_num_slots r ≡ pos n
    → s < n
    → t < n
    → t ≢ s
    → i < r
    → (place n r t i < slot_pointer (pos n) r s) ⊎ (slot_pointer (pos n) r s + r ≤ place n r t i)
apart r n s t i p e a b ne l = elim (lt-cases t s) [
  | inl h ↦ inl (let (_, before, _) = slot_pointer_lem r n t s p e b h in omega arith)
  | inr (inl q) ↦ absurd (ne q)
  | inr (inr h) ↦ inr (let (_, before, _) = slot_pointer_lem r n s t p e a h in omega arith)
]

-- On a page with the number of slots that `GetNumSlots` gives, a record that is put into a slot, with
-- a header written afterwards, stands in that slot byte by byte, and the records in all other slots
-- are as they were.
pub put_record_lem :
    (r n s : ℕ) (h : PageHdr) (bytes page : Bytes)
    → 0 < r
    → get_num_slots r ≡ pos n
    → h.num_slots ≡ pos n
    → s < n
    → ((i : ℕ) → i < r → to_buf h (put_record n r s bytes page) (place n r s i) ≡ bytes i)
      × ((t i : ℕ)
          → t < n
          → t ≢ s
          → i < r
          → to_buf h (put_record n r s bytes page) (place n r t i) ≡ page (place n r t i))
unfolding put_record
put_record_lem r n s h bytes page p e c l = (
  λ i m.
      behind r n s i h (put_record n r s bytes page) p e c l
      ∙ copy_at-inside (slot_pointer (pos n) r s) r bytes page (place n r s i) i refl m,
  λ t i k ne m.
      behind r n t i h (put_record n r s bytes page) p e c k
      ∙ copy_at-outside (slot_pointer (pos n) r s) r bytes page (place n r t i)
          (apart r n s t i p e l k ne m),
)
