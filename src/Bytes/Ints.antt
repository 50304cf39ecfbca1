-- ===== src/Bytes/Ints.antt =====
-- Integers that are written to memory and read from it.
use redbase.Base.{
  ℕ, ◌+◌, ◌-◌, ◌*◌, ◌/◌, ◌%◌, ◌^◌, ◌<◌, ◌≡◌, refl, ℤ, pos, negsuc, arith, ap, ltb, ltb-false,
  lt→ltb, ◌∙◌, if◌then◌else◌,
}
use redbase.Bytes.{Bytes, read_int, write_int, word, IsInt}

abbrev sum_of : Bytes → ℕ
sum_of p = p 0 + 2 ^ 8 * p 1 + 2 ^ 16 * p 2 + 2 ^ 24 * p 3

word-lt : (z : ℤ) → word z < 2 ^ 32
unfolding word
word-lt (pos n) = omega arith
word-lt (negsuc n) = omega arith

-- The four bytes of a number below 2³² make up the number.
bytes_sum :
    (w : ℕ)
    → w < 2 ^ 32
    → w / 1 % 256
        + 256 * (w / 256 % 256)
        + 65536 * (w / 65536 % 256)
        + 16777216 * (w / 16777216 % 256)
      ≡ w
bytes_sum w h = omega arith

sum_of-write_int : (z : ℤ) → sum_of (write_int z) ≡ word z
unfolding write_int
sum_of-write_int z = bytes_sum (word z) (word-lt z)

sum_of-congr : (p q : Bytes) → ((i : ℕ) → i < 4 → p i ≡ q i) → sum_of p ≡ sum_of q
sum_of-congr p q e =
    rw (e 0 (omega arith), e 1 (omega arith), e 2 (omega arith), e 3 (omega arith)) refl

from_word :
    (z : ℤ) (w : ℕ)
    → IsInt z
    → w ≡ word z
    → (if ltb w (2 ^ 31) then pos w else negsuc (2 ^ 32 - 1 - w)) ≡ z
unfolding word
from_word (pos n) w h e = rw (lt→ltb w (2 ^ 31) (omega arith)) (ap pos (omega arith))
from_word (negsuc n) w h e = rw (ltb-false w (2 ^ 31) (omega arith)) (ap negsuc (omega arith))

-- An `int` that is written is read back, from any memory that has its four bytes.
pub read_int-write_int :
    (z : ℤ) (p : Bytes) → IsInt z → ((i : ℕ) → i < 4 → p i ≡ write_int z i) → read_int p ≡ z
unfolding read_int
read_int-write_int z p h e =
    from_word z (sum_of p) h (sum_of-congr p (write_int z) e ∙ sum_of-write_int z)
