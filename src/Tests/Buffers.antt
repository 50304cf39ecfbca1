-- ===== src/Tests/Buffers.antt =====
-- A small buffer and its hash table.
use redbase.Base.{ℕ, ◌≡◌, ◌≢◌, ◌+◌, refl, arith, some, none, [], ◌∷◌, pos, false, rem, ◌+ℤ◌}
use redbase.Paged.Buffer.Links.Lists
use redbase.Paged.Buffer.Links.Lists.{Uses}
use redbase.Paged.Buffer.Links.Unlink
use redbase.Paged.Buffer.Alloc
use redbase.Paged.Buffer.Requests
use redbase.Paged.Buffer.Pages.{touch}
use redbase.Paged.Buffer.Links.Victim
use redbase.Paged.Buffer.Links.Victim.{chosen, last_unpinned}
use redbase.Paged.Buffer.{
  Buffer, Desc, Os, new_buffer, link_head, unlink, find_victim, internal_alloc,
}
use redbase.Paged.Code.{hash_not_found, hash_page_exist}
use redbase.Paged.Hash.Laws
use redbase.Paged.Hash.Laws.{IsUpdated, slot_of}
use redbase.Paged.Hash.{HashTable, hash, scan, same_page, find, insert, delete}
use redbase.Paged.Outcome.{ok, err}

abbrev memory : ℕ → Desc
memory i = record {
  bytes = λ k. 0;
  next = none;
  prev = none;
  dirty = false;
  pins = 0;
  page = pos 0;
  fd = pos 0;
}

abbrev start : Buffer Unit
start = new_buffer 3 memory (λ i. pos i) tt

start-Uses : Uses start []
unfolding new_buffer
start-Uses = ((refl, refl), tt)

link_head-Uses_example : Uses (link_head 1 start) (1 ∷ [])
link_head-Uses_example = Lists.link_head-Uses start 1 [] start-Uses tt

abbrev two : Buffer Unit
two = link_head 2 (link_head 1 start)

two-Uses : Uses two (2 ∷ 1 ∷ [])
two-Uses =
    Lists.link_head-Uses (link_head 1 start) 2 (1 ∷ [])
      (Lists.link_head-Uses start 1 [] start-Uses tt) (omega arith)

unlink-Uses_example : Uses (unlink 1 two) (2 ∷ [])
unlink-Uses_example = Unlink.unlink-Uses two (2 ∷ []) 1 [] two-Uses

abbrev table : HashTable
table = record {
  num_buckets = 20;
  buckets = λ i. record { fd = pos 3; page = pos 4; slot = 2 } ∷ [];
}

table-IsValid : Laws.IsValid table
unfolding scan
table-IsValid b = (refl, tt)

insert-IsUpdated_example :
    (slot_of table (pos 3) (pos 5) ≡ none
      → (h' : HashTable) × (insert (pos 3) (pos 5) 7 table ≡ ok h' tt)
        × IsUpdated table h' (pos 3) (pos 5) (some 7))
    × (slot_of table (pos 3) (pos 5) ≢ none
        → insert (pos 3) (pos 5) 7 table ≡ err table hash_page_exist)
insert-IsUpdated_example =
    Laws.insert-IsUpdated table (pos 3) (pos 5) 7 8 table-IsValid (unfold hash rem ◌+ℤ◌ in refl)

delete-IsUpdated_example :
    (slot_of table (pos 3) (pos 4) ≢ none
      → (h' : HashTable) × (delete (pos 3) (pos 4) table ≡ ok h' tt)
        × IsUpdated table h' (pos 3) (pos 4) none)
    × (slot_of table (pos 3) (pos 4) ≡ none
        → delete (pos 3) (pos 4) table ≡ err table hash_not_found)
delete-IsUpdated_example =
    Laws.delete-IsUpdated table (pos 3) (pos 4) 7 table-IsValid (unfold hash rem ◌+ℤ◌ in refl)

-- A disk that takes every write in full.
abbrev disk : Os Unit
disk = record {
  lseek = λ fd at f. (f, at);
  read = λ fd n p f. (f, pos n, p);
  write = λ fd n p f. (f, pos n);
}

abbrev full : Buffer Unit
full = record two { free = none }

full-Uses : Uses full (2 ∷ 1 ∷ [])
full-Uses = two-Uses

find_victim_lem_example :
    find_victim (full.num_pages + 1) full.last full
    ≡ chosen full (last_unpinned full.table (2 ∷ 1 ∷ []))
find_victim_lem_example =
    Victim.find_victim_lem full (2 ∷ 1 ∷ []) full-Uses (unfold new_buffer link_head in omega arith)

internal_alloc-Allocates_example :
    Alloc.Allocates full (2 ∷ 1 ∷ []) (internal_alloc ⦃os = disk⦄ full)
internal_alloc-Allocates_example =
    Alloc.internal_alloc-Allocates ⦃os = disk⦄ full (2 ∷ 1 ∷ []) full-Uses
      (unfold new_buffer link_head in omega arith) refl

touch-Moved_example : Alloc.Moved (2 ∷ 1 ∷ []) 1 (touch 1 full)
touch-Moved_example = Alloc.touch-Moved full (2 ∷ 1 ∷ []) (2 ∷ []) 1 [] full-Uses refl

-- Page 4 of file 3 is in slot 1.
abbrev holding : Buffer Unit
holding = record full {
  hash_table = record {
    num_buckets = 20;
    buckets = λ i. record { fd = pos 3; page = pos 4; slot = 1 } ∷ [];
  };
}

holding-find : find (pos 3) (pos 4) holding.hash_table ≡ ok holding.hash_table 1
unfolding find hash rem ◌+ℤ◌ scan same_page
holding-find = refl

get_page-unpin_page_example : Requests.Returns ⦃os = disk⦄ (pos 3) (pos 4) 1 (2 ∷ []) holding
get_page-unpin_page_example =
    Requests.get_page-unpin_page ⦃os = disk⦄ (pos 3) (pos 4) holding (2 ∷ []) 1 [] two-Uses
      holding-find (unfold new_buffer link_head in omega arith)
