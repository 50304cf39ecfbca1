-- ===== src/Bytes.antt =====
-- Memory as the code reads it through a `char *`: the bytes from the pointer on. What the sources
-- use of the C library on such memory, and the values that are read from it.
pub mod Ints
pub mod Copies
use redbase.Base.{
  ℕ, zero, suc, ◌+◌, ◌-◌, ◌*◌, ◌/◌, ◌%◌, ◌^◌, ◌<◌, Bool, ltb, leb, ◌&&◌, ◌==◌, if◌then◌else◌, ℤ,
  pos, negsuc,
}

abbrev pub Bytes : Type 0
Bytes = ℕ → ℕ

-- `p + k`
abbrev pub offset : ℕ → Bytes → Bytes
offset k p i = p (k + i)

-- `memcpy` of `n` bytes to the start of `dst`, and to the byte `k` of it.
unfoldable pub copy : ℕ → Bytes → Bytes → Bytes
copy n src dst i = if ltb i n then src i else dst i

unfoldable pub copy_at : ℕ → ℕ → Bytes → Bytes → Bytes
copy_at k n src dst i = if leb k i && ltb i (k + n) then src (i - k) else dst i

-- Only the sign of a comparison means something.
unfoldable pub compare_byte : ℕ → ℕ → ℤ
compare_byte a b = if ltb a b then negsuc 0 else if ltb b a then pos 1 else pos 0

unfoldable pub memcmp : ℕ → Bytes → Bytes → ℤ
unfolding compare_byte
memcmp zero a b = pos 0
memcmp (suc n) a b =
    let rest = memcmp n (offset 1 a) (offset 1 b) in
    if a 0 == b 0 then rest else compare_byte (a 0) (b 0)

-- The comparison stops behind a zero byte that both have.
unfoldable pub strncmp : ℕ → Bytes → Bytes → ℤ
unfolding compare_byte
strncmp zero a b = pos 0
strncmp (suc n) a b =
    let rest = strncmp n (offset 1 a) (offset 1 b) in
    if a 0 == b 0 then (if a 0 == 0 then pos 0 else rest) else compare_byte (a 0) (b 0)

-- A 32-bit `int` in two's complement, least significant byte first.
unfoldable pub read_int : Bytes → ℤ
read_int p =
    let n = p 0 + 2 ^ 8 * p 1 + 2 ^ 16 * p 2 + 2 ^ 24 * p 3 in
    if ltb n (2 ^ 31) then pos n else negsuc (2 ^ 32 - 1 - n)

-- The bit pattern of an `int`, and its four bytes.
unfoldable pub word : ℤ → ℕ
word (pos n) = n % 2 ^ 32
word (negsuc n) = 2 ^ 32 - 1 - n % 2 ^ 32

unfoldable pub write_int : ℤ → Bytes
unfolding word
write_int z i = word z / 2 ^ (8 * i) % 2 ^ 8

-- The values of an `int`.
abbrev pub IsInt : ℤ → Type 0
IsInt (pos n) = n < 2 ^ 31
IsInt (negsuc n) = n < 2 ^ 31

-- What the machine's `float` comparisons answer on the four bytes of each operand.
pub record Floats : Type 0 where
  pub lt : Bytes → Bytes → Bool
  pub eq : Bytes → Bytes → Bool
