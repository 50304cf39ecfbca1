-- ===== src/Paged/File/Held.antt =====
-- A file of src/pf_filehandle.cc whose pages the buffer holds: its pages can be asked for, marked and
-- unpinned, as long as the 16-bit pin counts have room.
use redbase.Base.{
  ℕ, suc, ◌+◌, ◌^◌, ◌<◌, ◌≡◌, refl, sym, ◌∙◌, ap, subst, true, false, Bool-cases, inl, inr, ◌⊎◌,
  ◌==◌, if◌then◌else◌, ℤ, arith, eqb_ℤ,
}
use redbase.Bytes.{read_int}
use redbase.Paged.Buffer.Pages
use redbase.Paged.Buffer.Pages.{get_page, mark_dirty, unpin_page, pin}
use redbase.Paged.Buffer.Pins.{
  Keeps, Moves, Keeps-after, Keeps-then, Keeps-Moves, get_page-Keeps, mark_dirty-Keeps,
  unpin_page-Keeps, unpin_page-Moves,
}
use redbase.Paged.Buffer.Requests.{pin_positive, unpin-pin}
use redbase.Paged.Buffer.{Buffer, Os}
use redbase.Paged.Code.{invalid_page, closed_file}
use redbase.Paged.File.{
  State, is_valid_page_num, when_open, when_valid, on_buffer, get_this_page, next_free, PageHandle,
  mark_page, unpin, page_used,
}
use redbase.Paged.Hash.{find}
use redbase.Paged.Outcome.{Op, ok, err, ◌>>=◌, ◌>>◌, bind_ok, raise}

-- The buffer holds a page of the file, which is in use, and can pin it `n` more times.
pub record IsHeld {F : Type 0} (fd page : ℤ) (n : ℕ) (b : Buffer F) : Type 0 where
  pub slot : ℕ
  pub found : find fd page b.hash_table ≡ ok b.hash_table slot
  pub used : eqb_ℤ (read_int (b.table slot).bytes) page_used ≡ true
  pub few : (b.table slot).pins + n < 2 ^ 16

-- The file is open, and the buffer holds all pages `InUse` of it.
pub record IsReady {F : Type 0} (InUse : ℤ → Type 0) (n : ℕ) (s : State F) : Type 0 where
  pub is_open : s.handle.file_open ≡ true
  pub valid : (p : ℤ) → InUse p → is_valid_page_num s.handle p ≡ true
  pub held : (p : ℤ) → InUse p → IsHeld s.handle.unixfd p n s.buffer

module _ {F : Type 0} where
  pub Moves-IsHeld :
      {fd page : ℤ} {n m d : ℕ} {b c : Buffer F}
      → Moves d b c
      → n ≡ m + d
      → IsHeld fd page n b
      → IsHeld fd page m c
  Moves-IsHeld {fd} {page} g e h = record {
    slot = h.slot;
    found = subst (λ t. find fd page t ≡ ok t h.slot) (sym g.hashed) h.found;
    used = ap (λ x. eqb_ℤ (read_int x) page_used) (g.bytes h.slot) ∙ h.used;
    few = omega (arith, g.pins h.slot, h.few);
  }

  abbrev pub with_buffer : Buffer F → State F → State F
  with_buffer b s = record s { buffer = b }

  pub Moves-IsReady :
      {InUse : ℤ → Type 0} {n m d : ℕ} (s : State F) (c : Buffer F)
      → Moves d s.buffer c
      → n ≡ m + d
      → IsReady InUse n s
      → IsReady InUse m (with_buffer c s)
  Moves-IsReady s c g e h = record {
    is_open = h.is_open;
    valid = h.valid;
    held = λ p u. Moves-IsHeld g e (h.held p u);
  }

  pass_guards :
      {A : Type 0} (p : ℤ) (m : Op (State F) A) (s : State F)
      → s.handle.file_open ≡ true
      → is_valid_page_num s.handle p ≡ true
      → when_open (when_valid p m) s ≡ m s
  pass_guards p m s on valid =
      ap (λ b. if b then when_valid p m s else err s closed_file) on
      ∙ ap (λ b. if b then m s else err s invalid_page) valid

  not_valid :
      {A : Type 0} (p : ℤ) (m : Op (State F) A) (s : State F)
      → s.handle.file_open ≡ true
      → is_valid_page_num s.handle p ≡ false
      → when_open (when_valid p m) s ≡ err s invalid_page
  not_valid p m s on invalid =
      ap (λ b. if b then when_valid p m s else err s closed_file) on
      ∙ ap (λ b. if b then m s else err s invalid_page) invalid

  on_buffer-ok :
      {A : Type 0} (m : Op (Buffer F) A) (s : State F) (c : Buffer F) (a : A)
      → m s.buffer ≡ ok c a
      → on_buffer m s ≡ ok (with_buffer c s) a
  on_buffer-ok m s c a e = rw (e, on_buffer) refl

  on_buffer-err :
      {A : Type 0} (m : Op (Buffer F) A) (s : State F) (c : Buffer F) (z : ℤ)
      → m s.buffer ≡ err c z
      → on_buffer m s ≡ err (with_buffer c s) z
  on_buffer-err m s c z e = rw (e, on_buffer) refl

  mark_page-ok :
      (p : ℤ) (s : State F) (c : Buffer F)
      → s.handle.file_open ≡ true
      → is_valid_page_num s.handle p ≡ true
      → mark_dirty s.handle.unixfd p s.buffer ≡ ok c tt
      → mark_page p s ≡ ok (with_buffer c s) tt
  unfolding mark_page
  mark_page-ok p s c on valid e =
      pass_guards p (λ t. on_buffer (mark_dirty t.handle.unixfd p) t) s on valid
      ∙ on_buffer-ok (mark_dirty s.handle.unixfd p) s c tt e

  unpin-ok :
      (p : ℤ) (s : State F) (c : Buffer F)
      → s.handle.file_open ≡ true
      → is_valid_page_num s.handle p ≡ true
      → unpin_page s.handle.unixfd p s.buffer ≡ ok c tt
      → unpin p s ≡ ok (with_buffer c s) tt
  unfolding unpin
  unpin-ok p s c on valid e =
      pass_guards p (λ t. on_buffer (unpin_page t.handle.unixfd p) t) s on valid
      ∙ on_buffer-ok (unpin_page s.handle.unixfd p) s c tt e

  unpin-err :
      (p : ℤ) (s : State F) (c : Buffer F) (z : ℤ)
      → s.handle.file_open ≡ true
      → is_valid_page_num s.handle p ≡ true
      → unpin_page s.handle.unixfd p s.buffer ≡ err c z
      → unpin p s ≡ err (with_buffer c s) z
  unfolding unpin
  unpin-err p s c z on valid e =
      pass_guards p (λ t. on_buffer (unpin_page t.handle.unixfd p) t) s on valid
      ∙ on_buffer-err (unpin_page s.handle.unixfd p) s c z e

  -- To unpin any page of a ready file leaves it ready, also when it is refused.
  pub unpin-IsReady :
      {InUse : ℤ → Type 0} (n : ℕ) (p : ℤ) (s : State F)
      → IsReady InUse n s
      → (t : State F) × ((unpin p s ≡ ok t tt) ⊎ ((z : ℤ) × (unpin p s ≡ err t z)))
        × IsReady InUse n t
  unfolding unpin
  unpin-IsReady n p s h = elim (Bool-cases (is_valid_page_num s.handle p)) [
    | inr no_page ↦ (
      s,
      inr (
        invalid_page,
        not_valid p (λ t. on_buffer (unpin_page t.handle.unixfd p) t) s h.is_open no_page,
      ),
      h,
    )
    | inl valid ↦
        let (c, case, g) = unpin_page-Moves s.handle.unixfd p s.buffer in
        let after = Moves-IsReady s c g (omega arith) h in
        elim case [
          | inl e ↦ (with_buffer c s, inl (unpin-ok p s c h.is_open valid e), after)
          | inr (z, e) ↦ (with_buffer c s, inr (z, unpin-err p s c z h.is_open valid e), after)
        ]
  ]

  pinned_ne :
      (b c : Buffer F) (s : ℕ)
      → (b.table s).pins + 1 < 2 ^ 16
      → Keeps s (pin (b.table s).pins) b c
      → ((c.table s).pins == 0) ≡ false
  pinned_ne b c s few g = ap (λ k. k == 0) g.here ∙ pin_positive (b.table s).pins few

module _ {F : Type 0} ⦃os : Os F⦄ where
  get_this_page-ok :
      (p : ℤ) (s : State F) (c : Buffer F) (slot : ℕ)
      → s.handle.file_open ≡ true
      → is_valid_page_num s.handle p ≡ true
      → get_page s.handle.unixfd p true s.buffer ≡ ok c slot
      → eqb_ℤ (read_int (c.table slot).bytes) page_used ≡ true
      → get_this_page p s ≡ ok (with_buffer c s) (record { page = p; slot = slot })
  unfolding get_this_page
  get_this_page-ok p s c slot on valid e used =
      pass_guards p (λ t. (on_buffer (get_page s.handle.unixfd p true) >>= rest) t) s on valid
      ∙ bind_ok (on_buffer (get_page s.handle.unixfd p true)) rest s (with_buffer c s) slot
          (on_buffer-ok (get_page s.handle.unixfd p true) s c slot e)
      ∙ ap
          (λ b.
            if b
            then ok (with_buffer c s) (record { page = p; slot = slot })
            else (unpin p >> raise invalid_page) (with_buffer c s))
          used
    where
      rest : ℕ → Op (State F) PageHandle
      rest i t =
          if eqb_ℤ (next_free i t) page_used
          then ok t (record { page = p; slot = i })
          else (unpin p >> raise invalid_page) t

  -- A page of a ready file: the state after `GetThisPage`, which pins it.
  pub get_this_page-Keeps :
      {InUse : ℤ → Type 0} (n : ℕ) (p : ℤ) (s : State F) (h : IsReady InUse n s) (u : InUse p)
      → (c : Buffer F) × (get_this_page p s
          ≡ ok (with_buffer c s) (record { page = p; slot = (h.held p u).slot }))
        × Keeps (h.held p u).slot (pin (s.buffer.table (h.held p u).slot).pins) s.buffer c
  get_this_page-Keeps n p s h u =
      let q = h.held p u in
      let (c, e, g) = get_page-Keeps s.handle.unixfd p s.buffer q.slot q.found in
      (
        c,
        get_this_page-ok p s c q.slot h.is_open (h.valid p u) e
            (ap (λ x. eqb_ℤ (read_int x) page_used) (g.bytes q.slot) ∙ q.used),
        g,
      )

  -- A page that is asked for and unpinned again: the buffer is as before, but for the order of its lists.
  pub get-unpin-Moves :
      {InUse : ℤ → Type 0} (n : ℕ) (p : ℤ) (s : State F) (h : IsReady InUse (suc n) s) (u : InUse p)
      → (b : Buffer F) × (c : Buffer F) × (get_this_page p s
          ≡ ok (with_buffer b s) (record { page = p; slot = (h.held p u).slot }))
        × (unpin p (with_buffer b s) ≡ ok (with_buffer c s) tt)
        × Moves 0 s.buffer c
  get-unpin-Moves n p s h u =
      let q = h.held p u in
      let k = (s.buffer.table q.slot).pins in
      let (b, e, g) = get_this_page-Keeps (suc n) p s h u in
      let found = subst (λ t. find s.handle.unixfd p t ≡ ok t q.slot) (sym g.hashed) q.found in
      let few : k + 1 < 2 ^ 16 = omega (arith, q.few) in
      let (c, e', g') =
        unpin_page-Keeps s.handle.unixfd p b q.slot found (pinned_ne s.buffer b q.slot few g) in
      (
        b,
        c,
        e,
        unpin-ok p (with_buffer b s) c h.is_open (h.valid p u) e',
        Keeps-Moves q.slot _ 0 s.buffer c (Keeps-then g g')
            (omega (arith, ap Pages.unpin g.here, unpin-pin k (omega arith))),
      )

  -- The same with a mark in between.
  pub request-Moves :
      {InUse : ℤ → Type 0} (n : ℕ) (p : ℤ) (s : State F) (h : IsReady InUse (suc n) s) (u : InUse p)
      → (a : Buffer F) × (b : Buffer F) × (c : Buffer F) × (get_this_page p s
          ≡ ok (with_buffer a s) (record { page = p; slot = (h.held p u).slot }))
        × (mark_page p (with_buffer a s) ≡ ok (with_buffer b s) tt)
        × (unpin p (with_buffer b s) ≡ ok (with_buffer c s) tt)
        × Moves 0 s.buffer c
  request-Moves n p s h u =
      let q = h.held p u in
      let k = (s.buffer.table q.slot).pins in
      let (a, e, g) = get_this_page-Keeps (suc n) p s h u in
      let found = subst (λ t. find s.handle.unixfd p t ≡ ok t q.slot) (sym g.hashed) q.found in
      let few : k + 1 < 2 ^ 16 = omega (arith, q.few) in
      let (b, e', g') =
        mark_dirty-Keeps s.handle.unixfd p a q.slot found (pinned_ne s.buffer a q.slot few g) in
      let both = Keeps-after g g' in
      let found' = subst (λ t. find s.handle.unixfd p t ≡ ok t q.slot) (sym both.hashed) q.found in
      let (c, e'', g'') =
        unpin_page-Keeps s.handle.unixfd p b q.slot found' (pinned_ne s.buffer b q.slot few both) in
      (
        a,
        b,
        c,
        e,
        mark_page-ok p (with_buffer a s) b h.is_open (h.valid p u) e',
        unpin-ok p (with_buffer b s) c h.is_open (h.valid p u) e'',
        Keeps-Moves q.slot _ 0 s.buffer c (Keeps-then both g'')
            (omega (arith, ap Pages.unpin both.here, unpin-pin k (omega arith))),
      )
