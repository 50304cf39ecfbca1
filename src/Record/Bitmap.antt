-- ===== src/Record/Bitmap.antt =====
-- `bitmap` of src/rm.h and src/bitmap.cc: bit `i` is bit `i % 8` of byte `i / 8`.
pub mod Laws
use redbase.Base.{ℕ, zero, suc, ◌+◌, ◌*◌, ◌/◌, ◌%◌, Bool, not, if◌then◌else◌, ◌==◌, update}
use redbase.Bytes.{Bytes, copy}

-- `v & (1 << o)` as a truth value, `v | (1 << o)` and `v & ~(1 << o)`, from the lowest bit on.
unfoldable pub test_bit : ℕ → ℕ → Bool
test_bit zero v = v % 2 == 1
test_bit (suc o) v = test_bit o (v / 2)

unfoldable pub set_bit : ℕ → ℕ → ℕ
set_bit zero v = v / 2 * 2 + 1
set_bit (suc o) v = set_bit o (v / 2) * 2 + v % 2

unfoldable pub reset_bit : ℕ → ℕ → ℕ
reset_bit zero v = v / 2 * 2
reset_bit (suc o) v = reset_bit o (v / 2) * 2 + v % 2

pub record Bitmap : Type 0 where
  pub size : ℕ
  pub buffer : Bytes

-- `numChars`
unfoldable pub num_chars : ℕ → ℕ
num_chars size = if not (size % 8 == 0) then size / 8 + 1 else size / 8

unfoldable pub test : ℕ → Bitmap → Bool
unfolding test_bit
test i b = test_bit (i % 8) (b.buffer (i / 8))

unfoldable pub set : ℕ → Bitmap → Bitmap
unfolding set_bit
set i b = record b { buffer = update b.buffer (i / 8) (set_bit (i % 8) (b.buffer (i / 8))) }

unfoldable pub reset : ℕ → Bitmap → Bitmap
unfolding reset_bit
reset i b = record b { buffer = update b.buffer (i / 8) (reset_bit (i % 8) (b.buffer (i / 8))) }

-- The loops over all bits, with the number of bits that are left.
unfoldable pub set_from : ℕ → ℕ → Bitmap → Bitmap
unfolding set
set_from zero i b = b
set_from (suc left) i b = set_from left (i + 1) (set i b)

unfoldable pub reset_from : ℕ → ℕ → Bitmap → Bitmap
unfolding reset
reset_from zero i b = b
reset_from (suc left) i b = reset_from left (i + 1) (reset i b)

unfoldable pub set_all : Bitmap → Bitmap
unfolding set_from
set_all b = set_from b.size 0 b

unfoldable pub reset_all : Bitmap → Bitmap
unfolding reset_from
reset_all b = reset_from b.size 0 b

-- The two constructors; `memory` is what `new` finds.
unfoldable pub new_bitmap : ℕ → Bytes → Bitmap
unfolding reset_all copy num_chars
new_bitmap size memory =
    reset_all (record { size = size; buffer = copy (num_chars size) (λ i. 0) memory })

unfoldable pub of_buf : Bytes → ℕ → Bytes → Bitmap
unfolding copy num_chars
of_buf buf size memory = record { size = size; buffer = copy (num_chars size) buf memory }

unfoldable pub to_char_buf : Bitmap → Bytes → Bytes
unfolding copy num_chars
to_char_buf b buf = copy (num_chars b.size) b.buffer buf
