-- ===== src/Paged/Buffer/Pages.antt =====
-- The requests for pages: `GetPage`, `AllocatePage`, `MarkDirty`, `UnpinPage`, and the blocks of raw
-- memory. The pointer that a request returns is the slot whose page it points to.
use redbase.Base.{
  ℕ, ◌+◌, ◌-◌, ◌%◌, ◌^◌, Bool, true, not, ◌&&◌, if◌then◌else◌, ltb, ◌==◌, ℤ, pos, negsuc, eqb_ℤ,
}
use redbase.Paged.Buffer.{
  Buffer, Os, on_hash, set_dirty, set_pins, insert_free, link_head, unlink, init_page_desc,
  read_page, internal_alloc,
}
use redbase.Paged.Code.{page_pinned, page_not_in_buf, page_unpinned, page_in_buf, hash_not_found}
use redbase.Paged.Hash.{find, insert}
use redbase.Paged.Outcome.{ok, err, fault, Op, ◌>>=◌, ◌>>◌, on_error, pure, modify}

-- `pinCount++` and `--pinCount` on 16 bits.
unfoldable pub pin : ℕ → ℕ
pin k = (k + 1) % 2 ^ 16

unfoldable pub unpin : ℕ → ℕ
unpin k = (k + 2 ^ 16 - 1) % 2 ^ 16

-- `pinCount > 0` of the signed count.
abbrev pub is_pinned : ℕ → Bool
is_pinned k = ltb 0 k && ltb k (2 ^ 15)

module _ {F : Type 0} where
  -- The clean-up of a slot whose page could not be set up.
  abbrev pub give_back : ℕ → Buffer F → Buffer F
  give_back slot b = insert_free slot (unlink slot b)

  -- The slot moves to the front of the used list.
  abbrev pub touch : ℕ → Buffer F → Buffer F
  touch slot b = link_head slot (unlink slot b)

  -- `GetPage` on a page that the buffer holds in `slot`.
  unfoldable pub get_held : ℕ → Bool → Op (Buffer F) ℕ
  unfolding pin unlink link_head
  get_held slot multiple_pins b =
      let k = (b.table slot).pins in
      if not multiple_pins && is_pinned k
      then err b page_pinned
      else ok (touch slot (set_pins (pin k) slot b)) slot

  -- The lookup of `MarkDirty` and `UnpinPage`, with their test that the page is pinned.
  unfoldable pub pinned_slot : ℤ → ℤ → Op (Buffer F) ℕ
  unfolding find
  pinned_slot fd page b = elim (find fd page b.hash_table) [
    | ok h slot ↦
        if (b.table slot).pins == 0
        then err (record b { hash_table = h }) page_unpinned
        else ok (record b { hash_table = h }) slot
    | err h c ↦
        err (record b { hash_table = h }) (if eqb_ℤ c hash_not_found then page_not_in_buf else c)
    | fault ↦ fault
  ]

  unfoldable pub mark_dirty : ℤ → ℤ → Op (Buffer F) (Unit {0})
  unfolding pinned_slot unlink link_head
  mark_dirty fd page = do
    slot ← pinned_slot fd page
    modify (set_dirty true slot)
    modify (touch slot)

  unfoldable pub unpin_page : ℤ → ℤ → Op (Buffer F) (Unit {0})
  unfolding pinned_slot unpin unlink link_head
  unpin_page fd page = do
    slot ← pinned_slot fd page
    modify λ b.
        let less = set_pins (unpin (b.table slot).pins) slot b in
        if unpin (b.table slot).pins == 0 then touch slot less else less

  -- `DisposeBlock`; `MEMORY_FD` is -1.
  unfoldable pub dispose_block : ℤ → Op (Buffer F) (Unit {0})
  unfolding unpin_page
  dispose_block page = unpin_page (negsuc 0) page

  unfoldable pub get_block_size : Buffer F → ℕ
  get_block_size b = b.page_size

module _ {F : Type 0} ⦃os : Os F⦄ where
  -- `GetPage` on a page that the buffer does not hold.
  unfoldable pub load_page : ℤ → ℤ → Op (Buffer F) ℕ
  unfolding internal_alloc read_page insert init_page_desc unlink insert_free
  load_page fd page = do
    slot ← internal_alloc
    on_error (give_back slot) do
      read_page fd page slot
      on_hash (insert fd page slot)
      modify (init_page_desc fd page slot)
    pure slot

  unfoldable pub get_page : ℤ → ℤ → Bool → Op (Buffer F) ℕ
  unfolding find load_page get_held
  get_page fd page multiple_pins b = elim (find fd page b.hash_table) [
    | ok h slot ↦ get_held slot multiple_pins (record b { hash_table = h })
    | err h c ↦
        if eqb_ℤ c hash_not_found
        then load_page fd page (record b { hash_table = h })
        else err (record b { hash_table = h }) c
    | fault ↦ fault
  ]

  -- `AllocatePage` from its search for a slot on.
  unfoldable pub claim_slot : ℤ → ℤ → Op (Buffer F) ℕ
  unfolding internal_alloc insert init_page_desc unlink insert_free
  claim_slot fd page = do
    slot ← internal_alloc
    on_error (give_back slot) do on_hash (insert fd page slot); modify (init_page_desc fd page slot)
    pure slot

  unfoldable pub allocate_page : ℤ → ℤ → Op (Buffer F) ℕ
  unfolding find claim_slot
  allocate_page fd page b = elim (find fd page b.hash_table) [
    | ok h slot ↦ err (record b { hash_table = h }) page_in_buf
    | err h c ↦
        if eqb_ℤ c hash_not_found
        then claim_slot fd page (record b { hash_table = h })
        else err (record b { hash_table = h }) c
    | fault ↦ fault
  ]

  -- `(rc = hashTable.Insert(…) != OK_RC)` gives `rc` the truth of the comparison: any error of
  -- `Insert` becomes the code 1.
  unfoldable pub insert_truth : ℤ → ℤ → ℕ → Op (Buffer F) (Unit {0})
  unfolding insert
  insert_truth fd page slot b = elim (on_hash (insert fd page slot) b) [
    | ok b' u ↦ ok b' u
    | err b' _ ↦ err b' (pos 1)
    | fault ↦ fault
  ]

  unfoldable pub allocate_block : Op (Buffer F) ℕ
  unfolding internal_alloc insert_truth init_page_desc unlink insert_free
  allocate_block = do
    slot ← internal_alloc
    on_error (give_back slot) λ b.
        (insert_truth (negsuc 0) (b.address slot) slot
            >> modify (init_page_desc (negsuc 0) (b.address slot) slot))
          b
    pure slot
