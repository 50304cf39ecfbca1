-- ===== src/Tests/Files.antt =====
-- A file of two pages over an empty buffer.
use redbase.Base.{ℕ, ◌≡◌, refl, true, false, pos, Bool, none, rem, ◌+ℤ◌, ◌==◌}
use redbase.Paged.Buffer.{Desc, Os, new_buffer}
use redbase.Paged.File.Alloc
use redbase.Paged.File.{State, PageHandle, Handle, alloc_page, list_end}
use redbase.Paged.Hash.{hash, same_page}
use redbase.Paged.Outcome.{Outcome, ok, err, fault}

abbrev memory : ℕ → Desc
memory i = record {
  bytes = λ k. 7;
  next = none;
  prev = none;
  dirty = false;
  pins = 0;
  page = pos 0;
  fd = pos 0;
}

-- A disk that takes every write in full.
abbrev disk : Os Unit
disk = record {
  lseek = λ fd at f. (f, at);
  read = λ fd n p f. (f, pos n, p);
  write = λ fd n p f. (f, pos n);
}

abbrev handle : Handle
handle = record {
  hdr = record { first_free = list_end; num_pages = pos 2 };
  file_open = true;
  hdr_changed = false;
  unixfd = pos 3;
}

abbrev start : State Unit
start = record { handle = handle; buffer = new_buffer 3 memory (λ i. pos i) tt }

abbrev gives : Outcome (State Unit) PageHandle → ℕ → Bool
gives (ok t ph) slot = ph.slot == slot
gives (err t c) slot = false
gives fault slot = false

-- The page that the allocation gives is in slot 0.
alloc_page-gives : gives (alloc_page ⦃os = disk⦄ start) 0 ≡ true
unfolding alloc_page hash rem ◌+ℤ◌ new_buffer same_page
alloc_page-gives = refl

alloc_page-Allocated_example : Alloc.Allocated ⦃os = disk⦄ start (alloc_page ⦃os = disk⦄ start)
alloc_page-Allocated_example = Alloc.alloc_page-Allocated ⦃os = disk⦄ start
