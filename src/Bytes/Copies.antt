-- ===== src/Bytes/Copies.antt =====
-- What `memcpy` to a place in a buffer writes, and what it leaves.
use redbase.Base.{true, false, ℕ, ◌+◌, ◌≤◌, ◌<◌, ◌≡◌, refl, arith, ap, ltb, leb, ◌&&◌, ◌⊎◌}
use redbase.Bytes.{Bytes, copy_at}

inside : (k n j : ℕ) → k ≤ j → j < k + n → (leb k j && ltb j (k + n)) ≡ true
inside k n j a b = ground arith

outside : (k n j : ℕ) → (j < k) ⊎ (k + n ≤ j) → (leb k j && ltb j (k + n)) ≡ false
outside k n j h = ground arith

pub copy_at-inside :
    (k n : ℕ) (src dst : Bytes) (j i : ℕ) → j ≡ k + i → i < n → copy_at k n src dst j ≡ src i
unfolding copy_at
copy_at-inside k n src dst j i e h =
    rw (inside k n j (omega arith) (omega arith)) (ap src (omega arith))

pub copy_at-outside :
    (k n : ℕ) (src dst : Bytes) (j : ℕ) → (j < k) ⊎ (k + n ≤ j) → copy_at k n src dst j ≡ dst j
unfolding copy_at
copy_at-outside k n src dst j h = rw (outside k n j h) refl
