-- ===== src/Paged/File/Alloc.antt =====
-- Which page `AllocatePage` gives, and what it holds.
use redbase.Base.{
  by_==, ℕ, ◌+◌, ◌<◌, ◌≡◌, refl, sym, ◌∙◌, ap, Bool, true, false, not, Bool-cases, inl, inr, ◌==◌,
  ℤ, pos, ◌+ℤ◌, eqb_ℤ, if◌then◌else◌, arith, update_self,
}
use redbase.Bytes.Copies.{copy_at-inside, copy_at-outside}
use redbase.Bytes.Ints.{read_int-write_int}
use redbase.Bytes.{Bytes, copy_at, write_int}
use redbase.Paged.Buffer.Links.Contents.{Contents, link_head-contents, unlink-contents}
use redbase.Paged.Buffer.Pages.{touch, get_page, allocate_page, mark_dirty, pinned_slot}
use redbase.Paged.Buffer.{Buffer, Desc, Os, set_dirty, unlink}
use redbase.Paged.File.{
  State, PageHandle, FileHdr, on_buffer, set_hdr, next_free, set_next_free, write_page_bytes,
  mark_page, reuse_page, extend_file, alloc_page, list_end, page_used, is_valid_page_num,
  when_valid,
}
use redbase.Paged.Code.{closed_file, invalid_page}
use redbase.Paged.Hash.{HashTable, find}
use redbase.Paged.Outcome.{Outcome, ok, err, fault, Op, ◌>>=◌, ◌>>◌, pure, modify, bind_lem}

-- The page that is taken, and the length of the file afterwards.
abbrev pub taken_page : FileHdr → ℤ
taken_page h = if not (eqb_ℤ h.first_free list_end) then h.first_free else h.num_pages

abbrev pub taken_length : FileHdr → ℤ
taken_length h = if not (eqb_ℤ h.first_free list_end) then h.num_pages else h.num_pages +ℤ pos 1

module _ {F : Type 0} where
  abbrev SameBytes : Buffer F → Buffer F → Type 0
  SameBytes b c = (i : ℕ) → (c.table i).bytes ≡ (b.table i).bytes

  abbrev KeepsBytes : {A : Type 0} → Buffer F → Outcome (Buffer F) A → Type 0
  KeepsBytes b (ok c a) = SameBytes b c
  KeepsBytes b (err c k) = Unit
  KeepsBytes b fault = Unit

  pinned_by :
      (b : Buffer F) (o : Outcome HashTable ℕ) (code : ℤ → ℤ) (low : ℤ)
      → KeepsBytes b (elim o as (λ _. Outcome (Buffer F) ℕ) [
        | ok h slot ↦
            if (b.table slot).pins == 0
            then err (record b { hash_table = h }) low
            else ok (record b { hash_table = h }) slot
        | err h c ↦ err (record b { hash_table = h }) (code c)
        | fault ↦ fault
      ])
  pinned_by b (ok h slot) code low = elim (Bool-cases ((b.table slot).pins == 0)) [
    | inl e ↦ rw (e) tt
    | inr e ↦ rw (e) (λ i. refl)
  ]
  pinned_by b (err h c) code low = tt
  pinned_by b fault code low = tt

  pinned_slot-bytes : (fd page : ℤ) (b : Buffer F) → KeepsBytes b (pinned_slot fd page b)
  unfolding pinned_slot
  pinned_slot-bytes fd page b = pinned_by b (find fd page b.hash_table) _ _

  set_dirty-bytes : (v : Bool) (s : ℕ) (b : Buffer F) → SameBytes b (set_dirty v s b)
  set_dirty-bytes v s b i = elim (Bool-cases (i == s)) [
    | inl e ↦ rw (e) (ap (λ k. (b.table k).bytes) (sym (by_== e)))
    | inr e ↦ rw (e) refl
  ]

  touch-bytes : (s : ℕ) (b : Buffer F) → SameBytes b (touch s b)
  touch-bytes s b i =
      ap (λ (c : Contents). c.0) (link_head-contents s (unlink s b) i ∙ unlink-contents s b i)

  mark_dirty-bytes : (fd page : ℤ) (b : Buffer F) → KeepsBytes b (mark_dirty fd page b)
  unfolding mark_dirty
  mark_dirty-bytes fd page b =
      bind_lem (KeepsBytes b) (KeepsBytes b) (pinned_slot fd page)
        (λ s. modify (set_dirty true s) >> modify (touch s)) b (pinned_slot-bytes fd page b)
        (λ c s kept i. touch-bytes s (set_dirty true s c) i ∙ set_dirty-bytes true s c i ∙ kept i)
        (λ _ _ _. tt) (λ _. tt)

  -- The handle is the same, and so are the bytes of all slots.
  abbrev KeepsPages : State F → Outcome (State F) (Unit {0}) → Type 0
  KeepsPages s (ok t _) = (t.handle ≡ s.handle) × SameBytes s.buffer t.buffer
  KeepsPages s (err t c) = Unit
  KeepsPages s fault = Unit

  lifted :
      (s : State F) (o : Outcome (Buffer F) (Unit {0}))
      → KeepsBytes s.buffer o
      → KeepsPages s (elim o [
        | ok b a ↦ ok (record s { buffer = b }) a
        | err b c ↦ err (record s { buffer = b }) c
        | fault ↦ fault
      ])
  lifted s (ok b a) kept = (refl, kept)
  lifted s (err b c) kept = tt
  lifted s fault kept = tt

  guarded :
      (s : State F) (test : Bool) (o : Outcome (State F) (Unit {0})) (code : ℤ)
      → KeepsPages s o
      → KeepsPages s (if test then o else err s code)
  guarded s true o code kept = kept
  guarded s false o code kept = tt

  mark_page-KeepsPages : (page : ℤ) (s : State F) → KeepsPages s (mark_page page s)
  unfolding mark_page
  mark_page-KeepsPages page s =
      guarded s s.handle.file_open
        (when_valid page (λ t. on_buffer (mark_dirty t.handle.unixfd page) t) s) closed_file
        (guarded s (is_valid_page_num s.handle page) (on_buffer (mark_dirty s.handle.unixfd page) s)
          invalid_page
          (lifted s (mark_dirty s.handle.unixfd page s.buffer)
            (mark_dirty-bytes s.handle.unixfd page s.buffer)))

  abbrev Takes : State F → Outcome (State F) PageHandle → Type 0
  Takes s (ok t ph) =
      (ph.page ≡ taken_page s.handle.hdr) × (t.handle.hdr.num_pages ≡ taken_length s.handle.hdr)
  Takes s (err t c) = Unit
  Takes s fault = Unit

  abbrev KeepsHandle : {A : Type 0} → State F → Outcome (State F) A → Type 0
  KeepsHandle s (ok t a) = t.handle ≡ s.handle
  KeepsHandle s (err t c) = Unit
  KeepsHandle s fault = Unit

  on_buffer_by :
      {A : Type 0} (s : State F) (o : Outcome (Buffer F) A)
      → KeepsHandle s (elim o as (λ _. Outcome (State F) A) [
        | ok b a ↦ ok (record s { buffer = b }) a
        | err b c ↦ err (record s { buffer = b }) c
        | fault ↦ fault
      ])
  on_buffer_by s (ok b a) = refl
  on_buffer_by s (err b c) = tt
  on_buffer_by s fault = tt

module _ {F : Type 0} ⦃os : Os F⦄ where
  reuse_page-Takes :
      (s : State F) → not (eqb_ℤ s.handle.hdr.first_free list_end) ≡ true → Takes s (reuse_page s)
  unfolding reuse_page
  reuse_page-Takes s e =
      let page = s.handle.hdr.first_free in
      bind_lem (KeepsHandle s) (Takes s) (on_buffer (get_page s.handle.unixfd page true))
        (λ slot.
          modify (λ t. set_hdr (λ h. record h { first_free = next_free slot t }) t)
          >> pure (record { page = page; slot = slot }))
        s (on_buffer_by s (get_page s.handle.unixfd page true s.buffer))
        (λ t slot same. rw (e) (refl, ap (λ h. h.hdr.num_pages) same)) (λ _ _ _. tt) (λ _. tt)

  extend_file-Takes :
      (s : State F) → not (eqb_ℤ s.handle.hdr.first_free list_end) ≡ false → Takes s (extend_file s)
  unfolding extend_file
  extend_file-Takes s e =
      let page = s.handle.hdr.num_pages in
      bind_lem (KeepsHandle s) (Takes s) (on_buffer (allocate_page s.handle.unixfd page))
        (λ slot.
          modify (set_hdr (λ h. record h { num_pages = h.num_pages +ℤ pos 1 }))
          >> pure (record { page = page; slot = slot }))
        s (on_buffer_by s (allocate_page s.handle.unixfd page s.buffer))
        (λ t slot same. rw (e) (refl, ap (λ h. h.hdr.num_pages +ℤ pos 1) same)) (λ _ _ _. tt)
        (λ _. tt)

  take_page-Takes :
      (s : State F) (old : Bool)
      → not (eqb_ℤ s.handle.hdr.first_free list_end) ≡ old
      → Takes s (if old then reuse_page s else extend_file s)
  take_page-Takes s true e = reuse_page-Takes s e
  take_page-Takes s false e = extend_file-Takes s e

  -- The page in the slot is marked as used and holds nothing but zeros.
  pub record IsBlank (slot : ℕ) (t : State F) : Type 0 where
    pub used : next_free slot t ≡ page_used
    pub zeros : (i : ℕ) → i < 4092 → (t.buffer.table slot).bytes (4 + i) ≡ 0

  -- `AllocatePage` that returns a page; a code or a fault says nothing of one.
  abbrev pub Allocated : State F → Outcome (State F) PageHandle → Type 0
  Allocated s (ok t ph) =
      (ph.page ≡ taken_page s.handle.hdr)
      × (t.handle.hdr.num_pages ≡ taken_length s.handle.hdr)
      × IsBlank ph.slot t
  Allocated s (err t c) = Unit
  Allocated s fault = Unit

  abbrev blank : ℕ → State F → State F
  blank slot t = write_page_bytes slot (copy_at 4 4092 (λ k. 0)) (set_next_free slot page_used t)

  written_bytes :
      (slot : ℕ) (f : Bytes → Bytes) (t : State F)
      → ((write_page_bytes slot f t).buffer.table slot).bytes ≡ f (t.buffer.table slot).bytes
  written_bytes slot f t =
      let d = t.buffer.table slot in
      ap (λ (c : Desc). c.bytes) (update_self t.buffer.table slot (record d { bytes = f d.bytes }))

  blank_bytes :
      (slot : ℕ) (t : State F)
      → ((blank slot t).buffer.table slot).bytes
        ≡ copy_at 4 4092 (λ k. 0) (copy_at 0 4 (write_int page_used) (t.buffer.table slot).bytes)
  blank_bytes slot t =
      let zero_data : Bytes → Bytes = copy_at 4 4092 (λ k. 0) in
      written_bytes slot zero_data (set_next_free slot page_used t)
      ∙ ap zero_data (written_bytes slot (copy_at 0 4 (write_int page_used)) t)

  blank-IsBlank :
      (slot : ℕ) (t u : State F) → SameBytes (blank slot t).buffer u.buffer → IsBlank slot u
  blank-IsBlank slot t u same =
      let bytes = same slot ∙ blank_bytes slot t in
      let marked = copy_at 0 4 (write_int page_used) (t.buffer.table slot).bytes in
      record {
        used = read_int-write_int page_used (u.buffer.table slot).bytes (omega arith) (λ i l.
            ap (λ p. p i) bytes
            ∙ copy_at-outside 4 4092 (λ k. 0) marked i (inl l)
            ∙ copy_at-inside 0 4 (write_int page_used) (t.buffer.table slot).bytes i i (omega arith)
                l);
        zeros = λ i l.
            ap (λ p. p (4 + i)) bytes ∙ copy_at-inside 4 4092 (λ k. 0) marked (4 + i) i refl l;
      }

  alloc_guarded :
      (s : State F) (test : Bool) (o : Outcome (State F) PageHandle) (code : ℤ)
      → Allocated s o
      → Allocated s (if test then o else err s code)
  alloc_guarded s true o code kept = kept
  alloc_guarded s false o code kept = tt

  -- When `AllocatePage` returns a page, it is the first page of the free list of the file, or, when
  -- that list is empty, the page at the end of the file, which is then one page longer; the page is
  -- marked as used and all its data are zero.
  pub alloc_page-Allocated : (s : State F) → Allocated s (alloc_page s)
  unfolding alloc_page
  alloc_page-Allocated s =
      let old = not (eqb_ℤ s.handle.hdr.first_free list_end) in
      let setup : PageHandle → Op (State F) PageHandle = λ ph.
        modify (set_next_free ph.slot page_used)
        >> (modify (write_page_bytes ph.slot (copy_at 4 4092 (λ k. 0)))
            >> (mark_page ph.page >> pure ph)) in
      let take : Op (State F) PageHandle =
        λ t. if not (eqb_ℤ t.handle.hdr.first_free list_end) then reuse_page t else extend_file t in
      alloc_guarded s s.handle.file_open ((take >>= setup) s) closed_file (
        bind_lem (Takes s) (Allocated s) take setup s (take_page-Takes s old refl)
          (λ t ph took.
            bind_lem (KeepsPages (blank ph.slot t)) (Allocated s) (mark_page ph.page) (λ _. pure ph)
              (blank ph.slot t) (mark_page-KeepsPages ph.page (blank ph.slot t))
              (λ u _ kept. (
                took.0,
                ap (λ h. h.hdr.num_pages) kept.0 ∙ took.1,
                blank-IsBlank ph.slot t u kept.1,
              ))
              (λ _ _ _. tt) (λ _. tt))
          (λ _ _ _. tt) (λ _. tt))
