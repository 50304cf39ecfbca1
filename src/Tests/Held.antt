-- ===== src/Tests/Held.antt =====
-- A file with the pages 1, 2 and 3 in use, which the buffer holds in the slots 0, 1 and 2.
use redbase.Base.{
  false, ℕ, ◌+◌, ◌^◌, ◌<◌, ◌≡◌, refl, sym, subst, true, ℤ, pos, none, some, [], ◌∷◌, arith, rem,
  ◌==◌, ltb, ◌⊎◌, inl, inr, if◌then◌else◌,
}
use redbase.Bytes.{Bytes, read_int}
use redbase.Paged.Buffer.{Buffer, Desc, Os}
use redbase.Paged.File.Held.{IsHeld, IsReady}
use redbase.Paged.File.{State, is_valid_page_num, list_end}
use redbase.Paged.Hash.{Entry, find, hash, scan, same_page}

-- A disk whose reads give zeros.
abbrev pub disk : Os Unit
disk = record {
  lseek = λ fd at f. (f, at);
  read = λ fd n p f. (f, pos n, λ k. 0);
  write = λ fd n p f. (f, pos n);
}

-- The first word says that the page is used.
abbrev pub used_bytes : Bytes
used_bytes k = if k == 0 then 254 else if ltb k 4 then 255 else 0

abbrev pub slots : ℕ → Desc
slots i = record {
  bytes = used_bytes;
  next = if ltb i 2 then some (i + 1) else none;
  prev = if i == 0 then none else if i == 1 then some 0 else some 1;
  dirty = false;
  pins = 0;
  page = pos (i + 1);
  fd = pos 3;
}

abbrev pub entry_of : ℕ → Entry
entry_of i = record { fd = pos 3; page = pos (i + 1); slot = i }

abbrev pub pool : Buffer Unit
pool = record {
  table = slots;
  hash_table = record {
    num_buckets = 20;
    buckets = λ b.
        if b == 4
        then entry_of 0 ∷ []
        else if b == 5
        then entry_of 1 ∷ []
        else if b == 6
        then entry_of 2 ∷ []
        else [];
  };
  num_pages = 3;
  page_size = 4096;
  first = some 0;
  last = some 2;
  free = none;
  address = λ i. pos i;
  files = tt;
}

abbrev pub file : State Unit
file = record {
  handle = record {
    hdr = record { first_free = list_end; num_pages = pos 4 };
    file_open = true;
    hdr_changed = false;
    unixfd = pos 3;
  };
  buffer = pool;
}

abbrev pub OneToThree : ℤ → Type 0
OneToThree p = (p ≡ pos 1) ⊎ (p ≡ pos 2) ⊎ (p ≡ pos 3)

pub by_page : (P : ℤ → Type 0) → P (pos 1) → P (pos 2) → P (pos 3) → (p : ℤ) → OneToThree p → P p
by_page P a b c p (inl e) = subst P (sym e) a
by_page P a b c p (inr (inl e)) = subst P (sym e) b
by_page P a b c p (inr (inr e)) = subst P (sym e) c

-- The pages can be pinned until the counts of 16 bits are full.
pub file-IsReady : (n : ℕ) → n < 2 ^ 16 → IsReady OneToThree n file
unfolding is_valid_page_num find scan hash same_page read_int rem redbase.Base.◌+ℤ◌
file-IsReady n small = record {
  is_open = refl;
  valid = by_page (λ p. is_valid_page_num file.handle p ≡ true) refl refl refl;
  held =
      by_page (λ p. IsHeld (pos 3) p n pool)
        (record { slot = 0; found = refl; used = refl; few = omega arith })
        (record { slot = 1; found = refl; used = refl; few = omega arith })
        (record { slot = 2; found = refl; used = refl; few = omega arith });
}
