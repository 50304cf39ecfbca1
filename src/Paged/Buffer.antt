-- ===== src/Paged/Buffer.antt =====
-- `PF_BufferMgr` of src/pf_buffermgr.h and src/pf_buffermgr.cc: its state, the lists of slots and the
-- allocation of a slot. `INVALID_SLOT` is `none`. The used list runs over `next` and `prev` from
-- `first` to `last`, the free list over `next` from `free`.
pub mod Pages
pub mod Files
pub mod Links
pub mod Alike
pub mod Alloc
pub mod Requests
pub mod Pins
use redbase.Base.{
  ℕ, zero, suc, ◌+◌, ◌-◌, ◌%◌, ◌^◌, Bool, true, false, Option, none, some, if◌then◌else◌, ◌==◌,
  update, ℤ, pos, negsuc, ◌+ℤ◌, ◌*ℤ◌, ltb_ℤ, eqb_ℤ,
}
use redbase.Bytes.{Bytes}
use redbase.Paged.Code.{no_buf, incomplete_read, incomplete_write, unix}
use redbase.Paged.Hash.{HashTable, new_table, delete}
use redbase.Paged.Outcome.{Outcome, ok, err, fault, Op, ◌>>=◌, ◌>>◌, pure, modify}

-- `PF_BufPageDesc`. `pins` is the bit pattern of the 16-bit pin count.
pub record Desc : Type 0 where
  pub bytes : Bytes
  pub next : Option ℕ
  pub prev : Option ℕ
  pub dirty : Bool
  pub pins : ℕ
  pub page : ℤ
  pub fd : ℤ

-- The system calls on the files `F`: what each returns, and the files afterwards.
pub record Os (F : Type 0) : Type 0 where
  pub lseek : ℤ → ℤ → F → F × ℤ
  pub read : ℤ → ℕ → Bytes → F → F × ℤ × Bytes
  pub write : ℤ → ℕ → Bytes → F → F × ℤ

-- `address` is what the cast of each slot's page to `PageNum` gives.
pub record Buffer (F : Type 0) : Type 0 where
  pub table : ℕ → Desc
  pub hash_table : HashTable
  pub num_pages : ℕ
  pub page_size : ℕ
  pub first : Option ℕ
  pub last : Option ℕ
  pub free : Option ℕ
  pub address : ℕ → ℤ
  pub files : F

-- `PF_FILE_HDR_SIZE`, and the size of a page with its header.
abbrev pub file_hdr_size : ℕ
file_hdr_size = 4096

-- The descriptions that the constructor and `ResizeBuffer` set up: all slots in a row, with zeroed
-- pages; the other fields keep what the memory holds.
unfoldable pub fresh_table : ℕ → (ℕ → Desc) → ℕ → Desc
fresh_table n memory i = record (memory i) {
  bytes = λ k. 0;
  prev = elim i [ zero ↦ none | suc j ↦ some j ];
  next = if i + 1 == n then none else some (i + 1);
}

abbrev pub set_next : ℕ → Option ℕ → (ℕ → Desc) → ℕ → Desc
set_next i v t = update t i (record (t i) { next = v })

abbrev pub set_prev : ℕ → Option ℕ → (ℕ → Desc) → ℕ → Desc
set_prev i v t = update t i (record (t i) { prev = v })

-- `first == slot`
abbrev pub is_slot : ℕ → Option ℕ → Bool
is_slot slot none = false
is_slot slot (some i) = i == slot

module _ {F : Type 0} where
  unfoldable pub new_buffer : ℕ → (ℕ → Desc) → (ℕ → ℤ) → F → Buffer F
  unfolding fresh_table new_table
  new_buffer n memory address files = record {
    table = fresh_table n memory;
    hash_table = new_table 20;
    num_pages = n;
    page_size = 4096;
    first = none;
    last = none;
    free = some 0;
    address = address;
    files = files;
  }

  -- A function of the hash table, inside the buffer.
  abbrev pub on_hash : {A : Type 0} → Op HashTable A → Op (Buffer F) A
  on_hash m b = elim (m b.hash_table) [
    | ok h a ↦ ok (record b { hash_table = h }) a
    | err h c ↦ err (record b { hash_table = h }) c
    | fault ↦ fault
  ]

  abbrev pub set_dirty : Bool → ℕ → Buffer F → Buffer F
  set_dirty d i b = record b { table = update b.table i (record (b.table i) { dirty = d }) }

  abbrev pub set_pins : ℕ → ℕ → Buffer F → Buffer F
  set_pins k i b = record b { table = update b.table i (record (b.table i) { pins = k }) }

  unfoldable pub insert_free : ℕ → Buffer F → Buffer F
  insert_free slot b = record b { table = set_next slot b.free b.table; free = some slot }

  unfoldable pub link_head : ℕ → Buffer F → Buffer F
  link_head slot b =
      let t = set_prev slot none (set_next slot b.first b.table) in
      record b {
        table = elim b.first [ none ↦ t | some f ↦ set_prev f (some slot) t ];
        first = some slot;
        last = elim b.last [ none ↦ some slot | some l ↦ some l ];
      }

  unfoldable pub unlink : ℕ → Buffer F → Buffer F
  unlink slot b =
      let d = b.table slot in
      let t : ℕ → Desc = elim d.next [ none ↦ b.table | some n ↦ set_prev n d.prev b.table ] in
      let u : ℕ → Desc = elim (t slot).prev [ none ↦ t | some p ↦ set_next p (t slot).next t ] in
      record b {
        first = if is_slot slot b.first then d.next else b.first;
        last = if is_slot slot b.last then d.prev else b.last;
        table = set_prev slot none (set_next slot none u);
      }

  unfoldable pub init_page_desc : ℤ → ℤ → ℕ → Buffer F → Buffer F
  init_page_desc fd page slot b = record b {
    table =
        update b.table slot
          (record (b.table slot) { fd = fd; page = page; dirty = false; pins = 1 });
  }

  -- The loop of `InternalAlloc`: the first slot with no pins from `slot` on towards the front.
  unfoldable pub find_victim : ℕ → Option ℕ → Op (Buffer F) ℕ
  find_victim zero slot b = fault
  find_victim (suc fuel) none b = err b no_buf
  find_victim (suc fuel) (some i) b =
      let rest = find_victim fuel (b.table i).prev b in
      if (b.table i).pins == 0 then ok b i else rest

module _ {F : Type 0} ⦃os : Os F⦄ where
  -- Where a page stands in its file.
  unfoldable pub file_offset : ℤ → Buffer F → ℤ
  unfolding ◌*ℤ◌ ◌+ℤ◌
  file_offset page b = page *ℤ pos b.page_size +ℤ pos file_hdr_size

  -- `ReadPage` into the page of a slot.
  unfoldable pub read_page : ℤ → ℤ → ℕ → Op (Buffer F) (Unit {0})
  unfolding file_offset
  read_page fd page slot b =
      let (f, at) = os.lseek fd (file_offset page b) b.files in
      if ltb_ℤ at (pos 0)
      then err (record b { files = f }) unix
      else (let (g, n, bytes) = os.read fd b.page_size (b.table slot).bytes f in
          let filled = record b {
            files = g;
            table = update b.table slot (record (b.table slot) { bytes = bytes });
          } in
          if ltb_ℤ n (pos 0)
          then err filled unix
          else (if eqb_ℤ n (pos b.page_size) then ok filled tt else err filled incomplete_read))

  -- `WritePage` of the page of a slot.
  unfoldable pub write_page : ℤ → ℤ → ℕ → Op (Buffer F) (Unit {0})
  unfolding file_offset
  write_page fd page slot b =
      let (f, at) = os.lseek fd (file_offset page b) b.files in
      if ltb_ℤ at (pos 0)
      then err (record b { files = f }) unix
      else (let (g, n) = os.write fd b.page_size (b.table slot).bytes f in
          let written = record b { files = g } in
          if ltb_ℤ n (pos 0)
          then err written unix
          else (if eqb_ℤ n (pos b.page_size) then ok written tt else err written incomplete_write))

  -- The page of a slot goes to its file if it is dirty.
  unfoldable pub write_if_dirty : ℕ → Op (Buffer F) (Unit {0})
  unfolding write_page
  write_if_dirty slot b =
      let d = b.table slot in
      if d.dirty then (write_page d.fd d.page slot >> modify (set_dirty false slot)) b else ok b tt

  unfoldable pub internal_alloc : Op (Buffer F) ℕ
  unfolding find_victim write_if_dirty delete unlink link_head
  internal_alloc b = elim b.free [
    | some slot ↦ (modify (link_head slot) >> pure slot) (record b { free = (b.table slot).next })
    | none ↦
        (do
          slot ← find_victim (b.num_pages + 1) b.last
          write_if_dirty slot
          (λ b'. on_hash (delete (b'.table slot).fd (b'.table slot).page) b')
          modify (unlink slot)
          modify (link_head slot)
          pure slot)
          b
  ]
