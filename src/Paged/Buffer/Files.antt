-- ===== src/Paged/Buffer/Files.antt =====
-- The requests that go over the whole used list: `FlushPages`, `ForcePages`, `ClearBuffer` and
-- `ResizeBuffer`. Each loop reads the link to the next slot before it works on one; its fuel is more
-- than the number of slots.
use redbase.Base.{
  ℕ, zero, suc, ◌+◌, not, ◌&&◌, ◌||◌, Option, none, some, if◌then◌else◌, ◌==◌, ℤ, pos, negsuc,
  eqb_ℤ,
}
use redbase.Paged.Buffer.{
  Buffer, Desc, Os, on_hash, insert_free, unlink, init_page_desc, write_if_dirty, internal_alloc,
  fresh_table,
}
use redbase.Paged.Code.{page_pinned}
use redbase.Paged.Hash.{delete, insert}
use redbase.Paged.Outcome.{ok, err, fault, Op, ◌>>=◌, ◌>>◌, modify}

module _ {F : Type 0} where
  -- The page of a slot leaves the hash table and the slot goes to the free list.
  unfoldable pub release : ℕ → Op (Buffer F) (Unit {0})
  unfolding delete unlink insert_free
  release slot b =
      (do
        on_hash (delete (b.table slot).fd (b.table slot).page)
        modify (unlink slot)
        modify (insert_free slot))
        b

  -- The loop of `ClearBuffer`.
  unfoldable pub clear_from : ℕ → Option ℕ → Op (Buffer F) (Unit {0})
  unfolding release
  clear_from zero slot b = fault
  clear_from (suc fuel) none b = ok b tt
  clear_from (suc fuel) (some slot) b =
      let rest = clear_from fuel (b.table slot).next in
      if (b.table slot).pins == 0 then (release slot >> rest) b else rest b

  unfoldable pub clear_buffer : Op (Buffer F) (Unit {0})
  unfolding clear_from
  clear_buffer b = clear_from (b.num_pages + 1) b.first b

  -- The first loop of `ResizeBuffer`: the pages of the old list `old` leave the hash table.
  unfoldable pub forget_from : ℕ → (ℕ → Desc) → Option ℕ → Op (Buffer F) (Unit {0})
  unfolding delete
  forget_from zero old slot b = fault
  forget_from (suc fuel) old none b = ok b tt
  forget_from (suc fuel) old (some slot) b =
      (on_hash (delete (old slot).fd (old slot).page) >> forget_from fuel old (old slot).next) b

module _ {F : Type 0} ⦃os : Os F⦄ where
  -- The loop of `FlushPages`; `warning` is `rcWarn`.
  unfoldable pub flush_from : ℕ → ℤ → Option ℕ → ℤ → Op (Buffer F) (Unit {0})
  unfolding write_if_dirty release
  flush_from zero fd slot warning b = fault
  flush_from (suc fuel) fd none warning b = if eqb_ℤ warning (pos 0) then ok b tt else err b warning
  flush_from (suc fuel) fd (some slot) warning b =
      let rest = flush_from fuel fd (b.table slot).next in
      if eqb_ℤ (b.table slot).fd fd
      then (if not ((b.table slot).pins == 0)
          then rest page_pinned b
          else (write_if_dirty slot >> (release slot >> rest warning)) b)
      else rest warning b

  unfoldable pub flush_pages : ℤ → Op (Buffer F) (Unit {0})
  unfolding flush_from
  flush_pages fd b = flush_from (b.num_pages + 1) fd b.first (pos 0) b

  -- The loop of `ForcePages`; the page number -1 stands for all pages.
  unfoldable pub force_from : ℕ → ℤ → ℤ → Option ℕ → Op (Buffer F) (Unit {0})
  unfolding write_if_dirty
  force_from zero fd page slot b = fault
  force_from (suc fuel) fd page none b = ok b tt
  force_from (suc fuel) fd page (some slot) b =
      let d = b.table slot in
      let rest = force_from fuel fd page d.next in
      if eqb_ℤ d.fd fd && (eqb_ℤ page (negsuc 0) || eqb_ℤ d.page page)
      then (write_if_dirty slot >> rest) b
      else rest b

  unfoldable pub force_pages : ℤ → ℤ → Op (Buffer F) (Unit {0})
  unfolding force_from
  force_pages fd page b = force_from (b.num_pages + 1) fd page b.first b

  -- The second loop of `ResizeBuffer`: each page of the old list gets a slot of the new table, and
  -- the slot is put on the free list at once.
  unfoldable pub move_from : ℕ → (ℕ → Desc) → Option ℕ → Op (Buffer F) (Unit {0})
  unfolding internal_alloc insert init_page_desc unlink insert_free
  move_from zero old slot b = fault
  move_from (suc fuel) old none b = ok b tt
  move_from (suc fuel) old (some slot) b =
      let rest = move_from fuel old (old slot).next in
      (do
        new_slot ← internal_alloc
        on_hash (insert (old slot).fd (old slot).page new_slot)
        modify (init_page_desc (old slot).fd (old slot).page new_slot)
        modify (unlink new_slot)
        modify (insert_free new_slot)
        rest)
        b

  -- `ResizeBuffer`; `memory` and `address` are of the pages that it allocates. The code of
  -- `ClearBuffer` is not looked at.
  unfoldable pub resize_buffer : ℕ → (ℕ → Desc) → (ℕ → ℤ) → Op (Buffer F) (Unit {0})
  unfolding clear_buffer forget_from move_from fresh_table
  resize_buffer n memory address b =
      let resize : Op (Buffer F) (Unit {0}) = λ c.
        (forget_from (c.num_pages + 1) c.table c.first
            >> move_from (c.num_pages + 1) c.table c.first)
          (record c {
            num_pages = n;
            first = none;
            last = none;
            free = some 0;
            table = fresh_table n memory;
            address = address;
          }) in
      elim (clear_buffer b) [ ok c _ ↦ resize c | err c _ ↦ resize c | fault ↦ fault ]
