-- ===== src/Paged/Buffer/Pins.antt =====
-- What `GetPage` of a page that the buffer holds, `MarkDirty` and `UnpinPage` of src/pf_buffermgr.cc
-- change of the pages that the buffer holds: pin counts, and no bytes.
use redbase.Base.{
  ℕ, Option, ◌+◌, ◌≤◌, ◌≡◌, ◌≢◌, refl, sym, ◌∙◌, subst, ap, none, some, Bool, true, false,
  Bool-cases, inl, inr, ◌⊎◌, ◌==◌, by_==, by_≠, ℤ, pos, negsuc, if◌then◌else◌, arith, eqb_ℤ,
}
use redbase.Paged.Buffer.Links.Contents.{Contents}
use redbase.Paged.Buffer.Pages.{touch, get_page, mark_dirty, unpin_page, pinned_slot, pin, unpin}
use redbase.Paged.Buffer.Requests.{touch-contents, get_held_page, held, freed}
use redbase.Paged.Buffer.{Buffer, Os, set_pins, set_dirty, link_head, unlink}
use redbase.Paged.Code.{page_unpinned, page_not_in_buf, hash_not_found}
use redbase.Paged.Hash.{find, hash, scan, HashTable}
use redbase.Paged.Outcome.{ok, err, bind_ok, bind_err}

-- The pages stay where they are, with their bytes; only the slot may have another pin count.
pub record Keeps {F : Type 0} (slot pins : ℕ) (b c : Buffer F) : Type 0 where
  pub hashed : c.hash_table ≡ b.hash_table
  pub bytes : (i : ℕ) → (c.table i).bytes ≡ (b.table i).bytes
  pub here : (c.table slot).pins ≡ pins
  pub others : (i : ℕ) → i ≢ slot → (c.table i).pins ≡ (b.table i).pins

find-cases :
    (fd page : ℤ) (h : HashTable)
    → ((s : ℕ) × (find fd page h ≡ ok h s)) ⊎ ((c : ℤ) × (find fd page h ≡ err h c))
unfolding find
find-cases fd page h = bucket (hash h.num_buckets fd page) refl
  where
    slot :
        (b : ℕ) (o : Option ℕ)
        → hash h.num_buckets fd page ≡ pos b
        → scan fd page (h.buckets b) ≡ o
        → ((s : ℕ) × (find fd page h ≡ ok h s)) ⊎ ((c : ℤ) × (find fd page h ≡ err h c))
    slot b none e e' = inr (hash_not_found, rw (e, find, e') refl)
    slot b (some s) e e' = inl (s, rw (e, find, e') refl)

    bucket :
        (z : ℤ)
        → hash h.num_buckets fd page ≡ z
        → ((s : ℕ) × (find fd page h ≡ ok h s)) ⊎ ((c : ℤ) × (find fd page h ≡ err h c))
    bucket (negsuc k) e = inr (hash_not_found, rw (e, find) refl)
    bucket (pos b) e = slot b (scan fd page (h.buckets b)) e refl

module _ {F : Type 0} where
  touched-Keeps : (s : ℕ) (b : Buffer F) → Keeps s (b.table s).pins b (touch s b)
  unfolding link_head unlink
  touched-Keeps s b = record {
    hashed = refl;
    bytes = λ i. ap (λ (c : Contents). c.0) (touch-contents s b i);
    here = ap (λ (c : Contents). c.2) (touch-contents s b s);
    others = λ i h. ap (λ (c : Contents). c.2) (touch-contents s b i);
  }

  set_pins-Keeps : (k s : ℕ) (b : Buffer F) → Keeps s k b (set_pins k s b)
  set_pins-Keeps k s b = record {
    hashed = refl;
    bytes = λ i. ground arith;
    here = ground arith;
    others = λ i h. ground arith;
  }

  set_dirty-Keeps : (d : Bool) (s : ℕ) (b : Buffer F) → Keeps s (b.table s).pins b (set_dirty d s b)
  set_dirty-Keeps d s b = record {
    hashed = refl;
    bytes = λ i. ground arith;
    here = ground arith;
    others = λ i h. ground arith;
  }

  pub Keeps-after :
      {s k : ℕ} {a b c : Buffer F} → Keeps s k a b → Keeps s ((b.table s).pins) b c → Keeps s k a c
  Keeps-after g h = record {
    hashed = h.hashed ∙ g.hashed;
    bytes = λ i. h.bytes i ∙ g.bytes i;
    here = h.here ∙ g.here;
    others = λ i e. h.others i e ∙ g.others i e;
  }

  pub Keeps-then : {s k k' : ℕ} {a b c : Buffer F} → Keeps s k a b → Keeps s k' b c → Keeps s k' a c
  Keeps-then {k = k} g h = record {
    hashed = h.hashed ∙ g.hashed;
    bytes = λ i. h.bytes i ∙ g.bytes i;
    here = h.here;
    others = λ i e. h.others i e ∙ g.others i e;
  }

  freed-Keeps :
      (k s : ℕ) (b : Buffer F) (last_pin : Bool)
      → Keeps s k b (if last_pin then touch s (set_pins k s b) else set_pins k s b)
  freed-Keeps k s b true = Keeps-after (set_pins-Keeps k s b) (touched-Keeps s (set_pins k s b))
  freed-Keeps k s b false = set_pins-Keeps k s b

  pinned_at :
      (fd page : ℤ) (b : Buffer F) (s : ℕ)
      → find fd page b.hash_table ≡ ok b.hash_table s
      → ((b.table s).pins == 0) ≡ false
      → pinned_slot fd page b ≡ ok b s
  unfolding pinned_slot
  pinned_at fd page b s e pinned = rw (pinned_slot, e, pinned) refl

  unpinned_at :
      (fd page : ℤ) (b : Buffer F) (s : ℕ)
      → find fd page b.hash_table ≡ ok b.hash_table s
      → ((b.table s).pins == 0) ≡ true
      → pinned_slot fd page b ≡ err b page_unpinned
  unfolding pinned_slot
  unpinned_at fd page b s e free = rw (pinned_slot, e, free) refl

  missing_at :
      (fd page : ℤ) (b : Buffer F) (c : ℤ)
      → find fd page b.hash_table ≡ err b.hash_table c
      → pinned_slot fd page b ≡ err b (if eqb_ℤ c hash_not_found then page_not_in_buf else c)
  unfolding pinned_slot
  missing_at fd page b c e = rw (pinned_slot, e) refl

  unpin_ok :
      (fd page : ℤ) (b : Buffer F) (s : ℕ)
      → pinned_slot fd page b ≡ ok b s
      → unpin_page fd page b ≡ ok (freed (unpin (b.table s).pins) s b) tt
  unfolding unpin_page
  unpin_ok fd page b s e = bind_ok (pinned_slot fd page) _ b b s e

  unpin_refused :
      (fd page : ℤ) (b : Buffer F) (c : ℤ)
      → pinned_slot fd page b ≡ err b c
      → unpin_page fd page b ≡ err b c
  unfolding unpin_page
  unpin_refused fd page b c e = bind_err (pinned_slot fd page) _ b b c e

  -- Pages stay in their slots with their bytes, and no slot has more than `d` pins more.
  pub record Moves (d : ℕ) (b c : Buffer F) : Type 0 where
    pub hashed : c.hash_table ≡ b.hash_table
    pub bytes : (i : ℕ) → (c.table i).bytes ≡ (b.table i).bytes
    pub pins : (i : ℕ) → (c.table i).pins ≤ (b.table i).pins + d

  pub Keeps-Moves :
      (s k d : ℕ) (b c : Buffer F) → Keeps s k b c → k ≤ (b.table s).pins + d → Moves d b c
  Keeps-Moves s k d b c g less = record {
    hashed = g.hashed;
    bytes = g.bytes;
    pins = λ i. elim (Bool-cases (i == s)) [
      | inl e ↦
          subst (λ j. (c.table j).pins ≤ (b.table j).pins + d) (sym (by_== e))
            (omega (arith, g.here))
      | inr e ↦ let same = g.others i (by_≠ e) in omega arith
    ];
  }

  -- To unpin a page can be refused, and takes pins off.
  release_held :
      (fd page : ℤ) (b : Buffer F) (s : ℕ)
      → find fd page b.hash_table ≡ ok b.hash_table s
      → (c : Buffer F) × ((unpin_page fd page b ≡ ok c tt)
          ⊎ ((e : ℤ) × (unpin_page fd page b ≡ err c e)))
        × Moves 0 b c
  unfolding unpin
  release_held fd page b s e = elim (Bool-cases ((b.table s).pins == 0)) [
    | inl z ↦ (
      b,
      inr (page_unpinned, unpin_refused fd page b page_unpinned (unpinned_at fd page b s e z)),
      record { hashed = refl; bytes = λ i. refl; pins = λ i. omega arith },
    )
    | inr z ↦ (
      freed (unpin (b.table s).pins) s b,
      inl (unpin_ok fd page b s (pinned_at fd page b s e z)),
      Keeps-Moves s (unpin (b.table s).pins) 0 b (freed (unpin (b.table s).pins) s b)
          (freed-Keeps (unpin (b.table s).pins) s b (unpin (b.table s).pins == 0))
          (ground (arith, by_≠ z)),
    )
  ]

  pub unpin_page-Moves :
      (fd page : ℤ) (b : Buffer F)
      → (c : Buffer F) × ((unpin_page fd page b ≡ ok c tt)
          ⊎ ((e : ℤ) × (unpin_page fd page b ≡ err c e)))
        × Moves 0 b c
  unpin_page-Moves fd page b = elim (find-cases fd page b.hash_table) [
    | inl (s, e) ↦ release_held fd page b s e
    | inr (c, e) ↦ (
      b,
      inr (_, unpin_refused fd page b _ (missing_at fd page b c e)),
      record { hashed = refl; bytes = λ i. refl; pins = λ i. omega arith },
    )
  ]

  pub mark_dirty-Keeps :
      (fd page : ℤ) (b : Buffer F) (s : ℕ)
      → find fd page b.hash_table ≡ ok b.hash_table s
      → ((b.table s).pins == 0) ≡ false
      → (c : Buffer F) × (mark_dirty fd page b ≡ ok c tt) × Keeps s ((b.table s).pins) b c
  unfolding mark_dirty
  mark_dirty-Keeps fd page b s e pinned = (
    touch s (set_dirty true s b),
    bind_ok (pinned_slot fd page) _ b b s (pinned_at fd page b s e pinned),
    Keeps-after (set_dirty-Keeps true s b) (touched-Keeps s (set_dirty true s b)),
  )

  pub unpin_page-Keeps :
      (fd page : ℤ) (b : Buffer F) (s : ℕ)
      → find fd page b.hash_table ≡ ok b.hash_table s
      → ((b.table s).pins == 0) ≡ false
      → (c : Buffer F) × (unpin_page fd page b ≡ ok c tt) × Keeps s (unpin (b.table s).pins) b c
  unpin_page-Keeps fd page b s e pinned = (
    freed (unpin (b.table s).pins) s b,
    unpin_ok fd page b s (pinned_at fd page b s e pinned),
    freed-Keeps (unpin (b.table s).pins) s b (unpin (b.table s).pins == 0),
  )

module _ {F : Type 0} ⦃os : Os F⦄ where
  pub get_page-Keeps :
      (fd page : ℤ) (b : Buffer F) (s : ℕ)
      → find fd page b.hash_table ≡ ok b.hash_table s
      → (c : Buffer F) × (get_page fd page true b ≡ ok c s) × Keeps s (pin (b.table s).pins) b c
  get_page-Keeps fd page b s e =
      let less = set_pins (pin (b.table s).pins) s b in
      (
        held s b,
        get_held_page fd page b s e,
        Keeps-after (set_pins-Keeps (pin (b.table s).pins) s b) (touched-Keeps s less),
      )
