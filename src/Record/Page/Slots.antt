-- ===== src/Record/Page/Slots.antt =====
-- How many slots fit on a page.
use redbase.Base.{
  ℕ, zero, suc, ◌+◌, ◌-◌, ◌*◌, ◌/◌, ◌≤◌, ◌<◌, ◌≡◌, refl, arith, inl, inr, false, pos, le-cases,
  lt→ltb, ltb-false, ◌==◌, lt-cases, subst, sym, ap, ◌∙◌, pos_part, ◌^◌, ◌≢◌,
}
use native.Mathlib.Nat.{le-div_iff_mul-le, mul-le-mul_right, mod-eq_of_lt}
use redbase.Bytes.{word}
use redbase.Record.Bitmap.{num_chars}
use redbase.Record.Page.{
  page_size, struct_size, fit_slots, get_num_slots, mapsize, size, slot_pointer,
}

==_false : (a b : ℕ) → a ≢ b → (a == b) ≡ false
==_false a b h = ground arith

-- What `n` slots take on a page, with the structure of the header and the bits of the map.
abbrev pub taken : ℕ → ℕ → ℕ
taken record_size n = n * record_size + (struct_size + num_chars n)

-- The largest number of slots that fits.
pub record IsMost (record_size n : ℕ) : Type 0 where
  pub fits : taken record_size n ≤ page_size
  pub most : (m : ℕ) → taken record_size m ≤ page_size → m ≤ n

fit_slots_fits : (r n : ℕ) → taken r (fit_slots r n) ≤ page_size
unfolding fit_slots num_chars
fit_slots_fits r zero = omega arith
fit_slots_fits r (suc n) = elim (le-cases page_size (taken r (suc n))) [
  | inl h ↦ rw (lt→ltb page_size (taken r (suc n)) h) (fit_slots_fits r n)
  | inr h ↦ rw (ltb-false page_size (taken r (suc n)) h) h
]

below : (r n m : ℕ) → m ≤ suc n → taken r m ≤ page_size → page_size < taken r (suc n) → m ≤ n
below r n m le h g = elim (lt-cases m (suc n)) [
  | inl l ↦ omega arith
  | inr (inl e) ↦ absurd (omega (arith, subst (λ k. taken r k ≤ page_size) e h))
  | inr (inr l) ↦ absurd (omega arith)
]

fit_slots_most : (r n m : ℕ) → m ≤ n → taken r m ≤ page_size → m ≤ fit_slots r n
unfolding fit_slots
fit_slots_most r zero m le h = le
fit_slots_most r (suc n) m le h = elim (le-cases page_size (taken r (suc n))) [
  | inl g ↦ rw (lt→ltb page_size (taken r (suc n)) g) (fit_slots_most r n m (below r n m le h g) h)
  | inr g ↦ rw (ltb-false page_size (taken r (suc n)) g) le
]

-- What fits in all is not more than the quotient that the loop starts from.
below_start : (r m : ℕ) → 0 < r → taken r m ≤ page_size → m ≤ (page_size - struct_size) / r
below_start r m p h = (le-div_iff_mul-le p).1 (omega arith)

-- For a record size that is not 0, `GetNumSlots` gives the largest number of slots that fit on a
-- page together with the structure of the header and one bit for each slot.
pub get_num_slots-IsMost : (r : ℕ) → 0 < r → (n : ℕ) × (get_num_slots r ≡ pos n) × IsMost r n
unfolding get_num_slots
get_num_slots-IsMost r h =
    let start = (page_size - struct_size) / r in
    (
      fit_slots r start,
      rw (==_false r 0 (omega arith)) refl,
      record {
        fits = fit_slots_fits r start;
        most = λ m fits. fit_slots_most r start m (below_start r m h fits) fits;
      },
    )

small : (r n : ℕ) → taken r n ≤ page_size → n < 2 ^ 32
unfolding num_chars
small r n h = ground arith

pos-injective : {m n : ℕ} → pos m ≡ pos n → m ≡ n
pos-injective e = ap pos_part e

map_small : (r n : ℕ) → taken r n ≤ page_size → mapsize (pos n) ≡ num_chars n
unfolding mapsize word num_chars
map_small r n h = ap num_chars (mod-eq_of_lt (small r n h))

-- The slot `s` of a page with `n` slots stands behind the header and before the end of the page,
-- and a slot `t` behind it starts after its end.
pub slot_pointer_lem :
    (r n s t : ℕ)
    → 0 < r
    → get_num_slots r ≡ pos n
    → s < n
    → s < t
    → (size (pos n) ≤ slot_pointer (pos n) r s)
      × (slot_pointer (pos n) r s + r ≤ slot_pointer (pos n) r t)
      × (slot_pointer (pos n) r s + r ≤ page_size)
unfolding slot_pointer size
slot_pointer_lem r n s t p e h l =
    let (m, e', i) = get_num_slots-IsMost r p in
    let fits : taken r n ≤ page_size =
      subst (λ k. taken r k ≤ page_size) (pos-injective (sym e' ∙ e)) i.fits in
    let same = map_small r n fits in
    let a : suc s * r ≤ t * r = mul-le-mul_right r l in
    let b : suc s * r ≤ n * r = mul-le-mul_right r h in (omega arith, omega arith, omega arith)
