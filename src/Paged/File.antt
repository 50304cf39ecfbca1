-- ===== src/Paged/File.antt =====
-- `PF_FileHandle` and `PF_PageHandle` of src/pf.h and src/pf_filehandle.cc, over the buffer manager.
-- The state of an operation is the handle and the buffer. The first four bytes of a page in the
-- buffer are its `nextFree`, and the data that a page handle points to start behind them.
pub mod Walk
pub mod Alloc
pub mod Held
use redbase.Base.{
  ℕ, zero, suc, ◌+◌, Bool, true, false, not, ◌&&◌, ◌||◌, if◌then◌else◌, update, ℤ, pos, negsuc,
  pos_part, neg_part, sub_ℕ, ◌+ℤ◌, ltb_ℤ, eqb_ℤ,
}
use redbase.Bytes.{Bytes, copy_at, read_int, write_int}
use redbase.Paged.Buffer.Files.{flush_pages, force_pages}
use redbase.Paged.Buffer.Pages.{get_page, allocate_page, mark_dirty, unpin_page}
use redbase.Paged.Buffer.{Buffer, Os}
use redbase.Paged.Code.{closed_file, invalid_page, page_free, eof, unix, hdr_write}
use redbase.Paged.Outcome.{Outcome, ok, err, fault, Op, ◌>>=◌, ◌>>◌, pure, raise, modify}

-- `PF_PAGE_LIST_END` and `PF_PAGE_USED`.
abbrev pub list_end : ℤ
list_end = negsuc 0

abbrev pub page_used : ℤ
page_used = negsuc 1

-- `PF_FileHdr`.
pub record FileHdr : Type 0 where
  pub first_free : ℤ
  pub num_pages : ℤ

-- The eight bytes of the header.
unfoldable pub hdr_bytes : FileHdr → Bytes
unfolding copy_at write_int
hdr_bytes h = copy_at 0 4 (write_int h.first_free) (copy_at 4 4 (write_int h.num_pages) (λ k. 0))

-- The handle without its pointer to the buffer manager.
pub record Handle : Type 0 where
  pub hdr : FileHdr
  pub file_open : Bool
  pub hdr_changed : Bool
  pub unixfd : ℤ

-- `PF_PageHandle`: the slot stands for the pointer into the page that it holds.
pub record PageHandle : Type 0 where
  pub page : ℤ
  pub slot : ℕ

pub record State (F : Type 0) : Type 0 where
  pub handle : Handle
  pub buffer : Buffer F

unfoldable pub is_valid_page_num : Handle → ℤ → Bool
is_valid_page_num h page = h.file_open && not (ltb_ℤ page (pos 0)) && ltb_ℤ page h.hdr.num_pages

module _ {F : Type 0} where
  -- A call of the buffer manager.
  abbrev pub on_buffer : {A : Type 0} → Op (Buffer F) A → Op (State F) A
  on_buffer m s = elim (m s.buffer) [
    | ok b a ↦ ok (record s { buffer = b }) a
    | err b c ↦ err (record s { buffer = b }) c
    | fault ↦ fault
  ]

  -- The two tests that most methods begin with.
  abbrev pub when_open : {A : Type 0} → Op (State F) A → Op (State F) A
  when_open m s = if s.handle.file_open then m s else err s closed_file

  abbrev pub when_valid : {A : Type 0} → ℤ → Op (State F) A → Op (State F) A
  when_valid page m s = if is_valid_page_num s.handle page then m s else err s invalid_page

  abbrev pub next_free : ℕ → State F → ℤ
  next_free slot s = read_int (s.buffer.table slot).bytes

  abbrev pub write_page_bytes : ℕ → (Bytes → Bytes) → State F → State F
  write_page_bytes slot f s = record s {
    buffer = record s.buffer {
      table =
          update s.buffer.table slot
            (record (s.buffer.table slot) { bytes = f (s.buffer.table slot).bytes });
    };
  }

  abbrev pub set_next_free : ℕ → ℤ → State F → State F
  set_next_free slot v = write_page_bytes slot (copy_at 0 4 (write_int v))

  -- A change of the file header, which marks it.
  abbrev pub set_hdr : (FileHdr → FileHdr) → State F → State F
  set_hdr f s = record s { handle = record s.handle { hdr = f s.handle.hdr; hdr_changed = true } }

  unfoldable pub mark_page : ℤ → Op (State F) (Unit {0})
  unfolding is_valid_page_num mark_dirty
  mark_page page = when_open (when_valid page (λ s. on_buffer (mark_dirty s.handle.unixfd page) s))

  unfoldable pub unpin : ℤ → Op (State F) (Unit {0})
  unfolding is_valid_page_num unpin_page
  unpin page = when_open (when_valid page (λ s. on_buffer (unpin_page s.handle.unixfd page) s))

module _ {F : Type 0} ⦃os : Os F⦄ where
  unfoldable pub get_this_page : ℤ → Op (State F) PageHandle
  unfolding is_valid_page_num get_page unpin
  get_this_page page = when_open (
      when_valid page (do
        slot ← (λ s. on_buffer (get_page s.handle.unixfd page true) s)
        (λ s.
            if eqb_ℤ (next_free slot s) page_used
            then ok s (record { page = page; slot = slot })
            else (unpin page >> raise invalid_page) s)))

  -- The first part of `AllocatePage`: a page of the free list, or a new one at the end of the file.
  unfoldable pub reuse_page : Op (State F) PageHandle
  unfolding get_page
  reuse_page s =
      let page = s.handle.hdr.first_free in
      (do
        slot ← on_buffer (get_page s.handle.unixfd page true)
        modify (λ t. set_hdr (λ h. record h { first_free = next_free slot t }) t)
        pure (record { page = page; slot = slot }))
        s

  unfoldable pub extend_file : Op (State F) PageHandle
  unfolding allocate_page ◌+ℤ◌
  extend_file s =
      let page = s.handle.hdr.num_pages in
      (do
        slot ← on_buffer (allocate_page s.handle.unixfd page)
        modify (set_hdr (λ h. record h { num_pages = h.num_pages +ℤ pos 1 }))
        pure (record { page = page; slot = slot }))
        s

  unfoldable pub alloc_page : Op (State F) PageHandle
  unfolding reuse_page extend_file mark_page
  alloc_page = when_open do
    ph ← (λ s. if not (eqb_ℤ s.handle.hdr.first_free list_end) then reuse_page s else extend_file s)
    modify (set_next_free ph.slot page_used)
    modify (write_page_bytes ph.slot (copy_at 4 4092 (λ k. 0)))
    mark_page ph.page
    pure ph

  -- `DisposePage` from its look at the page on.
  unfoldable pub free_page : ℤ → ℕ → Op (State F) (Unit {0})
  unfolding mark_page unpin
  free_page page slot s =
      if not (eqb_ℤ (next_free slot s) page_used)
      then (unpin page >> raise page_free) s
      else ((do
        modify (λ t. set_next_free slot t.handle.hdr.first_free t)
        modify (set_hdr (λ h. record h { first_free = page }))
        mark_page page
        unpin page)
          s)

  unfoldable pub dispose_page : ℤ → Op (State F) (Unit {0})
  unfolding is_valid_page_num get_page free_page
  dispose_page page = when_open (
      when_valid page
        (do slot ← (λ s. on_buffer (get_page s.handle.unixfd page false) s); free_page page slot))

  -- The header goes to the start of the file if it has changed.
  unfoldable pub write_hdr : Op (State F) (Unit {0})
  unfolding hdr_bytes
  write_hdr s =
      let h = s.handle in
      if h.hdr_changed
      then (let (f, at) = os.lseek h.unixfd (pos 0) s.buffer.files in
          if ltb_ℤ at (pos 0)
          then err (record s { buffer = record s.buffer { files = f } }) unix
          else (let (g, n) = os.write h.unixfd 8 (hdr_bytes h.hdr) f in
              let t = record s { buffer = record s.buffer { files = g } } in
              if ltb_ℤ n (pos 0)
              then err t unix
              else (if not (eqb_ℤ n (pos 8))
                  then err t hdr_write
                  else ok (record t { handle = record h { hdr_changed = false } }) tt)))
      else ok s tt

  unfoldable pub flush_file : Op (State F) (Unit {0})
  unfolding write_hdr flush_pages
  flush_file = when_open (write_hdr >> (λ s. on_buffer (flush_pages s.handle.unixfd) s))

  unfoldable pub force_file : ℤ → Op (State F) (Unit {0})
  unfolding write_hdr force_pages
  force_file page = when_open (write_hdr >> (λ s. on_buffer (force_pages s.handle.unixfd page) s))
