-- ===== src/Paged/Buffer/Requests.antt =====
-- A page that the buffer holds is asked for and unpinned again.
use redbase.Base.{
  by_==, by_≠, ℕ, ◌+◌, ◌^◌, ◌<◌, ◌≡◌, ◌≢◌, refl, sym, ◌∙◌, subst, ap, none, List, [], ◌∷◌, ◌++◌,
  Bool, true, false, Bool-cases, inl, inr, ◌==◌, ℤ, if◌then◌else◌, arith, update_self, update_ne,
}
use redbase.Paged.Buffer.Alloc.{touch-Uses}
use redbase.Paged.Buffer.Links.Contents.{contents, Contents, link_head-contents, unlink-contents}
use redbase.Paged.Buffer.Links.{Agree, Agree-Run}
use redbase.Paged.Buffer.Links.Lists.{Uses}
use redbase.Paged.Buffer.Pages.{touch, get_held, get_page, unpin_page, pinned_slot, pin, unpin}
use redbase.Paged.Buffer.{Buffer, Os, set_pins, link_head, unlink}
use redbase.Paged.Hash.{find}
use redbase.Paged.Outcome.{Outcome, ok, err, fault}

pub unpin-pin : (k : ℕ) → k < 2 ^ 16 → unpin (pin k) ≡ k
unfolding unpin pin
unpin-pin k h = omega arith

pub pin_positive : (k : ℕ) → k + 1 < 2 ^ 16 → (pin k == 0) ≡ false
unfolding pin
pin_positive k h = ground arith

abbrev with_pins : ℕ → Contents → Contents
with_pins k (bytes, dirty, _, page, fd) = (bytes, dirty, k, page, fd)

module _ {F : Type 0} where
  set_pins-Agree : (k s : ℕ) (b : Buffer F) (xs : List ℕ) → Agree b.table (set_pins k s b).table xs
  set_pins-Agree k s b [] = tt
  set_pins-Agree k s b (x ∷ xs) = (ground arith, ground arith, set_pins-Agree k s b xs)

  set_pins-Uses : (k s : ℕ) (b : Buffer F) (xs : List ℕ) → Uses b xs → Uses (set_pins k s b) xs
  set_pins-Uses k s b xs (r, d) = (
    Agree-Run b.table (set_pins k s b).table none b.first b.last none xs (set_pins-Agree k s b xs)
        r,
    d,
  )

  pub touch-contents :
      (s : ℕ) (b : Buffer F) (i : ℕ) → contents ((touch s b).table i) ≡ contents (b.table i)
  touch-contents s b i = link_head-contents s (unlink s b) i ∙ unlink-contents s b i

  set_pins_self :
      (k s : ℕ) (b : Buffer F)
      → contents ((set_pins k s b).table s) ≡ with_pins k (contents (b.table s))
  set_pins_self k s b = ap contents (update_self b.table s (record (b.table s) { pins = k }))

  set_pins_other :
      (k s : ℕ) (b : Buffer F) (i : ℕ)
      → i ≢ s
      → contents ((set_pins k s b).table i) ≡ contents (b.table i)
  set_pins_other k s b i h = ap contents (update_ne b.table s i (record (b.table s) { pins = k }) h)

  -- The pin count of a slot goes back to what it was.
  repinned :
      (b c : Buffer F) (s k : ℕ)
      → ((i : ℕ) → contents (c.table i) ≡ contents ((set_pins k s b).table i))
      → (i : ℕ) → contents ((set_pins (b.table s).pins s c).table i) ≡ contents (b.table i)
  repinned b c s k same i =
      let p = (b.table s).pins in
      elim (Bool-cases (i == s)) [
        | inl e ↦
            subst (λ j. contents ((set_pins p s c).table j) ≡ contents (b.table j)) (sym (by_== e))
              (set_pins_self p s c ∙ ap (with_pins p) (same s ∙ set_pins_self k s b))
        | inr e ↦
            let other = by_≠ e in
            set_pins_other p s c i other ∙ same i ∙ set_pins_other k s b i other
      ]

  -- The buffer after `GetPage` on a page that it holds in the slot.
  abbrev pub held : ℕ → Buffer F → Buffer F
  held s b = touch s (set_pins (pin (b.table s).pins) s b)

  -- The buffer after `UnpinPage` of it.
  abbrev pub freed : ℕ → ℕ → Buffer F → Buffer F
  freed k s c = if k == 0 then touch s (set_pins k s c) else set_pins k s c

  held-find :
      (fd page : ℤ) (s : ℕ) (b : Buffer F)
      → find fd page b.hash_table ≡ ok b.hash_table s
      → find fd page (held s b).hash_table ≡ ok (held s b).hash_table s
  unfolding link_head unlink
  held-find fd page s b e = e

  held-pins : (s : ℕ) (b : Buffer F) → ((held s b).table s).pins ≡ pin (b.table s).pins
  held-pins s b =
      let k = pin (b.table s).pins in
      ap (λ (c : Contents). c.2) (touch-contents s (set_pins k s b) s ∙ set_pins_self k s b)

  freed_by :
      (b less : Buffer F) (s : ℕ) (rest : List ℕ) (last_pin : Bool)
      → Uses less (s ∷ rest)
      → ((i : ℕ) → contents (less.table i) ≡ contents (b.table i))
      → Uses (if last_pin then touch s less else less) (s ∷ rest)
        × ((i : ℕ)
            → contents ((if last_pin then touch s less else less).table i) ≡ contents (b.table i))
  freed_by b less s rest true v back =
      (touch-Uses less [] s rest v, λ i. touch-contents s less i ∙ back i)
  freed_by b less s rest false v back = (v, back)

  freed_lem :
      (b c : Buffer F) (s k : ℕ) (rest : List ℕ)
      → ((i : ℕ) → contents (c.table i) ≡ contents ((set_pins k s b).table i))
      → Uses c (s ∷ rest)
      → Uses (freed (b.table s).pins s c) (s ∷ rest)
        × ((i : ℕ) → contents ((freed (b.table s).pins s c).table i) ≡ contents (b.table i))
  freed_lem b c s k rest same u =
      let p = (b.table s).pins in
      let less = set_pins p s c in
      let v = set_pins-Uses p s c (s ∷ rest) u in
      let back = repinned b c s k same in freed_by b less s rest (p == 0) v back

module _ {F : Type 0} ⦃os : Os F⦄ where
  pub get_held_page :
      (fd page : ℤ) (b : Buffer F) (s : ℕ)
      → find fd page b.hash_table ≡ ok b.hash_table s
      → get_page fd page true b ≡ ok (held s b) s
  unfolding get_held get_page
  get_held_page fd page b s e = rw (get_page, e) refl

  pinned_held_page :
      (fd page : ℤ) (c : Buffer F) (s : ℕ)
      → find fd page c.hash_table ≡ ok c.hash_table s
      → ((c.table s).pins == 0) ≡ false
      → pinned_slot fd page c ≡ ok c s
  unfolding pinned_slot
  pinned_held_page fd page c s e pinned = rw (pinned_slot, e, pinned) refl

  unpin_held_page :
      (fd page : ℤ) (c : Buffer F) (s k : ℕ)
      → pinned_slot fd page c ≡ ok c s
      → unpin (c.table s).pins ≡ k
      → unpin_page fd page c ≡ ok (freed k s c) tt
  unfolding unpin_page
  unpin_held_page fd page c s k e less =
      ap
        (λ o. elim o as (λ _. Outcome (Buffer F) (Unit {0})) [
          | ok b i ↦ ok (freed (unpin (b.table i).pins) i b) tt
          | err b r ↦ err b r
          | fault ↦ fault
        ])
        e
      ∙ ap (λ p. ok (freed p s c) tt) less

  -- What `GetPage` of a held page and `UnpinPage` of the same page come to.
  pub record Returns (fd page : ℤ) (s : ℕ) (rest : List ℕ) (b : Buffer F) : Type 0 where
    pub got : Buffer F
    pub back : Buffer F
    pub get : get_page fd page true b ≡ ok got s
    pub pinned : (got.table s).pins ≡ pin (b.table s).pins
    pub unpinned : unpin_page fd page got ≡ ok back tt
    pub uses : Uses back (s ∷ rest)
    pub same : (i : ℕ) → contents (back.table i) ≡ contents (b.table i)

  -- For a page that the buffer holds in the slot `s` of its used list, with less than 2¹⁶ - 1 pins:
  -- `GetPage` that allows several pins gives the slot with one pin more, and `UnpinPage` of the page
  -- then succeeds. Both together leave the bytes, the page, the dirty bit and the pin count of
  -- every slot as they were, and make the slot the most recently used one, before the others in
  -- their order.
  pub get_page-unpin_page :
      (fd page : ℤ) (b : Buffer F) (before : List ℕ) (s : ℕ) (after : List ℕ)
      → Uses b (before ++ s ∷ after)
      → find fd page b.hash_table ≡ ok b.hash_table s
      → (b.table s).pins + 1 < 2 ^ 16
      → Returns fd page s (before ++ after) b
  get_page-unpin_page fd page b before s after u e small =
      let p = (b.table s).pins in
      let c = held s b in
      let one_more = held-pins s b in
      let some_pin : ((c.table s).pins == 0) ≡ false =
        ap (λ k. k == 0) one_more ∙ pin_positive p small in
      let less : unpin (c.table s).pins ≡ p = ap unpin one_more ∙ unpin-pin p (omega arith) in
      let v =
        touch-Uses (set_pins (pin p) s b) before s after
          (set_pins-Uses (pin p) s b (before ++ s ∷ after) u) in
      let (w, same) =
        freed_lem b c s (pin p) (before ++ after) (touch-contents s (set_pins (pin p) s b)) v in
      record {
        got = c;
        back = freed p s c;
        get = get_held_page fd page b s e;
        pinned = one_more;
        unpinned =
            unpin_held_page fd page c s p
              (pinned_held_page fd page c s (held-find fd page s b e) some_pin) less;
        uses = w;
        same = same;
      }
