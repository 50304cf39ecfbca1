-- ===== src/Record/Scan/Held.antt =====
-- `RM_FileHandle::GetRec` of src/rm_filehandle.cc and the read of a bitmap by src/rm_filescan.cc, on a
-- table whose pages the buffer holds.
use redbase.Base.{
  ℕ, suc, ◌<◌, ◌≡◌, refl, ◌∙◌, ap, subst, Bool, true, false, not, ◌&&◌, none, some, if◌then◌else◌,
  ltb_ℤ, eqb_ℤ, ℤ, pos, negsuc, pos_part, Option, arith,
}
use redbase.Bytes.{Bytes, Floats, offset}
use redbase.Paged.Buffer.Pins.{Moves}
use redbase.Paged.Buffer.{Buffer, Os}
use redbase.Paged.File.Held.{IsReady, Moves-IsReady, get-unpin-Moves}
use redbase.Paged.File.{State, Handle, PageHandle, get_this_page, unpin}
use redbase.Paged.Hash.{find}
use redbase.Paged.Outcome.{Op, ok, err, ◌>>=◌, ◌>>◌, modify}
use redbase.Predicate.{Predicate, eval}
use redbase.Record.Bitmap.{test}
use redbase.Record.File.Records.{get_rec, when_rid, when_taken}
use redbase.Record.File.{
  RecordFile, on_file, is_valid, is_valid_rid, is_valid_page, when_ready, slots_of, header_of,
  data_of, bad_rid, no_rec_at_rid,
}
use redbase.Record.Page.{from_buf, new_page_hdr, get_num_slots, slot_pointer, rec_size_mismatch}
use redbase.Record.Rid.{Rid}
use redbase.Record.Scan.{RmFileScan, on_records, page_map, read_rec, matches, try_slot}
use redbase.Record.Slot.{slot_map}

-- The numbers of the pages of a table, which has `np` pages with the header.
abbrev pub InTable : ℕ → ℤ → Type 0
InTable np (pos k) = (0 < k) × (k < np)
InTable np (negsuc k) = ⊥

-- What stays the same while a table is read: the handle of its paged file, the first page with a free slot,
-- the number of pages, the size of a record, the number of slots less 1, and the bytes of the pages.
pub record Table : Type 0 where
  pub handle : Handle
  pub first_free : ℤ
  pub num_pages : ℕ
  pub record_size : ℕ
  pub more_slots : ℕ
  pub changed : Bool
  pub pages : ℕ → Bytes

-- The map of the free slots of a page, and the bytes from a slot on.
abbrev pub map_of : Bytes → Table → ℕ → ℕ → Bool
map_of memory t k i =
    let slots = get_num_slots t.record_size in
    test i (
      slot_map (pos_part slots) memory
        (from_buf (offset 4 (t.pages k)) (new_page_hdr slots (pos 0) memory)))

abbrev pub bytes_at : Table → ℕ → ℕ → Bytes
bytes_at t k i =
    offset (slot_pointer (pos (pos_part (get_num_slots t.record_size))) t.record_size i)
      (offset 4 (t.pages k))

abbrev pub record_at : Table → ℕ → ℕ → Option (Bytes × Rid)
record_at t k i = some (bytes_at t k i, record { page = pos k; slot = pos i })

-- Whether the record in a slot passes the predicate of the scan.
abbrev pub passes_at : Floats → Table → Predicate → ℕ → ℕ → Bool
passes_at f t p k i = eval f p (bytes_at t k i) none p.comp_op

module _ {F : Type 0} where
  abbrev pub file_at : Table → Buffer F → RecordFile F
  file_at t b = record {
    pf = some t.handle;
    buffer = b;
    hdr = record {
      first_free = t.first_free;
      num_pages = pos t.num_pages;
      record_size = t.record_size;
    };
    file_open = true;
    hdr_changed = t.changed;
  }

  -- The state of a scan over the table.
  abbrev pub scan_at : Table → Predicate → Buffer F → Rid → Option (Bytes × Rid) → RmFileScan F
  scan_at t p b cur r = record {
    pred = some p;
    file = some (file_at t b);
    current = cur;
    is_open = true;
    rec = r;
  }

  -- The buffer holds the pages of the table, with room for `n` more pins of each.
  pub record HoldsTable (t : Table) (n : ℕ) (b : Buffer F) : Type 0 where
    pub counted : get_num_slots t.record_size ≡ pos (suc t.more_slots)
    pub ready : IsReady (InTable t.num_pages) n (record { handle = t.handle; buffer = b })
    pub content :
        (k s : ℕ)
        → InTable t.num_pages (pos k)
        → find t.handle.unixfd (pos k) b.hash_table ≡ ok b.hash_table s
        → (b.table s).bytes ≡ t.pages k

  Moves-HoldsTable :
      (t : Table) (n : ℕ) (b c : Buffer F) → Moves 0 b c → HoldsTable t n b → HoldsTable t n c
  Moves-HoldsTable t n b c g h = record {
    counted = h.counted;
    ready = Moves-IsReady (record { handle = t.handle; buffer = b }) c g (omega arith) h.ready;
    content = λ k s u e.
        g.bytes s
        ∙ h.content k s u (subst (λ x. find t.handle.unixfd (pos k) x ≡ ok x s) g.hashed e);
  }

  table_ready :
      {A : Type 0} (t : Table) (m : Op (RecordFile F) A) (b : Buffer F)
      → get_num_slots t.record_size ≡ pos (suc t.more_slots)
      → when_ready m (file_at t b) ≡ m (file_at t b)
  unfolding is_valid
  table_ready t m b e =
      ap
        (λ q.
          let v = if not q then rec_size_mismatch else pos 0 in
          if eqb_ℤ v (pos 0) then m (file_at t b) else err (file_at t b) v)
        (positive t.more_slots (get_num_slots t.record_size) e)
    where
      positive : (more : ℕ) (z : ℤ) → z ≡ pos (suc more) → ltb_ℤ (pos 0) z ≡ true
      positive more z e = ground arith

module _ {F : Type 0} ⦃os : Os F⦄ where
  -- A page that is looked at and unpinned, before the rest reads its bytes.
  visit :
      {A : Type 0} (t : Table) (k n : ℕ) (rest : PageHandle → Op (RecordFile F) A) (b : Buffer F)
      → HoldsTable t (suc n) b
      → InTable t.num_pages (pos k)
      → (c : Buffer F) × (s : ℕ) × ((on_file (get_this_page (pos k)) >>= λ ph.
              on_file (unpin (pos k)) >> rest ph)
            (file_at t b)
          ≡ rest (record { page = pos k; slot = s }) (file_at t c))
        × ((c.table s).bytes ≡ t.pages k)
        × HoldsTable t (suc n) c
  visit t k n rest b h u =
      let s : State F = record { handle = t.handle; buffer = b } in
      let q = h.ready.held (pos k) u in
      let (a, c, e, e', g) = get-unpin-Moves n (pos k) s h.ready u in
      (
        c,
        q.slot,
        rw (e, on_file, ◌>>=◌, ◌>>◌, e') refl,
        g.bytes q.slot ∙ h.content k q.slot u q.found,
        Moves-HoldsTable t (suc n) b c g h,
      )

  table_rid :
      {A : Type 0} (memory : Bytes) (t : Table) (k i : ℕ) (m : Op (RecordFile F) A) (b : Buffer F)
      → get_num_slots t.record_size ≡ pos (suc t.more_slots)
      → InTable t.num_pages (pos k)
      → i < suc t.more_slots
      → when_rid memory (record { page = pos k; slot = pos i }) m (file_at t b) ≡ m (file_at t b)
  unfolding is_valid_rid is_valid_page
  table_rid memory t k i m b e u small =
      ap (λ q. if not q then err (file_at t b) bad_rid else m (file_at t b))
        (valid_slot t.num_pages t.more_slots k i (get_num_slots t.record_size) e u small)
    where
      valid_slot :
          (np more k i : ℕ) (z : ℤ)
          → z ≡ pos (suc more)
          → InTable np (pos k)
          → i < suc more
          → ((true && not (ltb_ℤ (pos k) (pos 0)) && ltb_ℤ (pos k) (pos np))
              && not (ltb_ℤ (pos i) (pos 0))
              && ltb_ℤ (pos i) z)
            ≡ true
      valid_slot np more k i z e (a, b) small = ground arith

  pub page_map_lem :
      (f : Floats) (memory : Bytes) (t : Table) (p : Predicate) (k n : ℕ) (b : Buffer F) (cur : Rid)
      (r : Option (Bytes × Rid))
      → HoldsTable t (suc n) b
      → InTable t.num_pages (pos k)
      → (c : Buffer F) × (page_map f memory (pos k) (scan_at t p b cur r)
          ≡ ok (scan_at t p c cur r) (map_of memory t k))
        × HoldsTable t (suc n) c
  unfolding page_map
  page_map_lem f memory t p k n b cur r h u =
      let (c, s, e, same, h') = visit t k n rest b h u in
      (
        c,
        rw (e, on_records)
            (ap
              (λ x. ok (scan_at t p c cur r) (λ i. test i (
                slot_map (slots_of (file_at t c)) memory (
                  from_buf (offset 4 x)
                    (new_page_hdr (get_num_slots t.record_size) (pos 0) memory)))))
              same),
        h',
      )
    where
      rest : PageHandle → Op (RecordFile F) (ℕ → Bool)
      rest ph h = ok h (λ i. test i (slot_map (slots_of h) memory (header_of memory ph h)))

  get_rec_lem :
      (memory : Bytes) (t : Table) (k i n : ℕ) (b : Buffer F)
      → HoldsTable t (suc n) b
      → InTable t.num_pages (pos k)
      → i < suc t.more_slots
      → map_of memory t k i ≡ false
      → (c : Buffer F) × (get_rec memory (record { page = pos k; slot = pos i }) (file_at t b)
          ≡ ok (file_at t c) (bytes_at t k i))
        × HoldsTable t (suc n) c
  unfolding get_rec
  get_rec_lem memory t k i n b h u small taken =
      let (c, s, e, same, h') = visit t k n rest b h u in
      let read : Op (RecordFile F) Bytes =
        on_file (get_this_page (pos k)) >>= λ ph. on_file (unpin (pos k)) >> rest ph in
      (
        c,
        table_ready t (when_rid memory (record { page = pos k; slot = pos i }) read) b h.counted
            ∙ table_rid memory t k i read b h.counted u small
            ∙ e
            ∙ ap
                (λ q.
                  if q
                  then err (file_at t c) no_rec_at_rid
                  else ok (file_at t c) (
                      offset (slot_pointer (pos (slots_of (file_at t c))) t.record_size i)
                        (offset 4 (c.table s).bytes)))
                (ap
                    (λ x. test i (
                      slot_map (slots_of (file_at t c)) memory (
                        from_buf (offset 4 x)
                          (new_page_hdr (get_num_slots t.record_size) (pos 0) memory))))
                    same
                  ∙ taken)
            ∙ ap
                (λ x. ok (file_at t c) (
                  offset (slot_pointer (pos (slots_of (file_at t c))) t.record_size i)
                    (offset 4 x)))
                same,
        h',
      )
    where
      rest : PageHandle → Op (RecordFile F) Bytes
      rest ph = when_taken memory ph (pos_part (pos i)) (λ s. ok s (
          offset (slot_pointer (pos (slots_of s)) s.hdr.record_size (pos_part (pos i)))
            (data_of ph s)))

  -- A slot that is not free: its record is read and tested.
  pub try_slot_lem :
      (f : Floats) (memory : Bytes) (t : Table) (p : Predicate) (k i n : ℕ) (b : Buffer F)
      (cur : Rid) (r : Option (Bytes × Rid))
      → HoldsTable t (suc n) b
      → InTable t.num_pages (pos k)
      → i < suc t.more_slots
      → map_of memory t k i ≡ false
      → (c : Buffer F) × (try_slot f memory (pos k) i (scan_at t p b cur r)
          ≡ ok
              (scan_at t p c (record { page = pos k; slot = pos i }) (record_at t k i))
              (passes_at f t p k i))
        × HoldsTable t (suc n) c
  unfolding try_slot read_rec matches
  try_slot_lem f memory t p k i n b cur r h u small taken =
      let (c, e, h') = get_rec_lem memory t k i n b h u small taken in
      (c, rw (e, ◌>>◌, ◌>>=◌, modify, on_records) refl, h')
