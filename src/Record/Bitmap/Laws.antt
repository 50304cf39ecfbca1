-- ===== src/Record/Bitmap/Laws.antt =====
-- Which bits the operations of a bitmap change.
use redbase.Base.{
  by_==, by_≠, ℕ, zero, suc, ◌+◌, ◌*◌, ◌/◌, ◌%◌, ◌<◌, ◌≡◌, ◌≢◌, refl, false, not, ◌&&◌, ◌||◌, ltb,
  leb, lt→ltb, ◌==◌, arith, sym, ap, inl, inr, Bool-cases,
}
use redbase.Bytes.{Bytes, copy}
use redbase.Record.Bitmap.{
  Bitmap, test_bit, set_bit, reset_bit, test, set, reset, num_chars, set_from, reset_from, set_all,
  reset_all, of_buf, to_char_buf,
}

half_set : (o v : ℕ) → set_bit (suc o) v / 2 ≡ set_bit o (v / 2)
unfolding set_bit
half_set o v = omega arith

half_reset : (o v : ℕ) → reset_bit (suc o) v / 2 ≡ reset_bit o (v / 2)
unfolding reset_bit
half_reset o v = omega arith

suc_== : (a b : ℕ) → (suc a == suc b) ≡ (a == b)
suc_== a b = ground arith

half_odd : (v : ℕ) → (v / 2 * 2 + 1) / 2 ≡ v / 2
half_odd v = omega arith

half_even : (v : ℕ) → v / 2 * 2 / 2 ≡ v / 2
half_even v = omega arith

test_bit-set_bit : (p o v : ℕ) → test_bit p (set_bit o v) ≡ (p == o || test_bit p v)
unfolding test_bit
test_bit-set_bit zero zero v = unfold set_bit in ground arith
test_bit-set_bit zero (suc o) v = unfold set_bit in ground arith
test_bit-set_bit (suc p) zero v = unfold set_bit in rw (half_odd v) (ground arith)
test_bit-set_bit (suc p) (suc o) v = rw (half_set, suc_==) (test_bit-set_bit p o (v / 2))

test_bit-reset_bit : (p o v : ℕ) → test_bit p (reset_bit o v) ≡ (not (p == o) && test_bit p v)
unfolding test_bit
test_bit-reset_bit zero zero v = unfold reset_bit in ground arith
test_bit-reset_bit zero (suc o) v = unfold reset_bit in ground arith
test_bit-reset_bit (suc p) zero v = unfold reset_bit in rw (half_even v) (ground arith)
test_bit-reset_bit (suc p) (suc o) v = rw (half_reset, suc_==) (test_bit-reset_bit p o (v / 2))

-- A bit is another when its byte or its place in the byte is.
same_place : (i j : ℕ) → i / 8 ≡ j / 8 → (i % 8 == j % 8) ≡ (i == j)
same_place i j h = ground arith

other_place : (i j : ℕ) → i / 8 ≢ j / 8 → (i == j) ≡ false
other_place i j h = ground arith

-- `set` of bit `i` turns that bit on and leaves every other bit as it was.
pub test-set : (i j : ℕ) (b : Bitmap) → test j (set i b) ≡ (j == i || test j b)
unfolding test set
test-set i j b = elim (Bool-cases (j / 8 == i / 8)) [
  | inl e ↦
      rw (e, test_bit-set_bit (j % 8) (i % 8), same_place j i (by_== e))
        (ap (λ k. j == i || test_bit (j % 8) (b.buffer k)) (sym (by_== e)))
  | inr e ↦ rw (e, other_place j i (by_≠ e)) refl
]

-- `reset` of bit `i` turns that bit off and leaves every other bit as it was.
pub test-reset : (i j : ℕ) (b : Bitmap) → test j (reset i b) ≡ (not (j == i) && test j b)
unfolding test reset
test-reset i j b = elim (Bool-cases (j / 8 == i / 8)) [
  | inl e ↦
      rw (e, test_bit-reset_bit (j % 8) (i % 8), same_place j i (by_== e))
        (ap (λ k. not (j == i) && test_bit (j % 8) (b.buffer k)) (sym (by_== e)))
  | inr e ↦ rw (e, other_place j i (by_≠ e)) refl
]

test-set_from :
    (n i j : ℕ) (b : Bitmap) → test j (set_from n i b) ≡ ((leb i j && ltb j (i + n)) || test j b)
unfolding set_from
test-set_from zero i j b = ground arith
test-set_from (suc n) i j b =
    rw (test-set_from n (i + 1) j (set i b), test-set i j b) (ground arith)

test-reset_from :
    (n i j : ℕ) (b : Bitmap)
    → test j (reset_from n i b) ≡ (not (leb i j && ltb j (i + n)) && test j b)
unfolding reset_from
test-reset_from zero i j b = ground arith
test-reset_from (suc n) i j b =
    rw (test-reset_from n (i + 1) j (reset i b), test-reset i j b) (ground arith)

-- `set` without an argument turns on every bit below the size and no other.
pub test-set_all : (j : ℕ) (b : Bitmap) → test j (set_all b) ≡ (ltb j b.size || test j b)
unfolding set_all
test-set_all j b = rw (test-set_from b.size 0 j b) (ground arith)

-- `reset` without an argument turns off every bit below the size and no other.
pub test-reset_all : (j : ℕ) (b : Bitmap) → test j (reset_all b) ≡ (not (ltb j b.size) && test j b)
unfolding reset_all
test-reset_all j b = rw (test-reset_from b.size 0 j b) (ground arith)

-- The byte of a bit of the map is among the bytes that are copied.
byte-num_chars : (j size : ℕ) → j < size → j / 8 < num_chars size
unfolding num_chars
byte-num_chars j size h = ground arith

-- A bitmap that is written to a buffer and read from it has the bits that it had, whatever the
-- memory held before.
pub test-of_buf :
    (b : Bitmap) (buf memory : Bytes) (j : ℕ)
    → j < b.size
    → test j (of_buf (to_char_buf b buf) b.size memory) ≡ test j b
unfolding test of_buf to_char_buf copy
test-of_buf b buf memory j h =
    rw (lt→ltb (j / 8) (num_chars b.size) (byte-num_chars j b.size h)) refl
