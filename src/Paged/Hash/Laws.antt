-- ===== src/Paged/Hash/Laws.antt =====
-- The hash table as a map from pages to slots.
use redbase.Base.{
  ℕ, ◌%◌, ◌<◌, ◌≤◌, ◌≡◌, ◌≢◌, refl, true, arith, Option, none, some, List, [], ◌∷◌, if◌then◌else◌,
  update, ℤ, pos, negsuc, ◌+ℤ◌, rem, Option-cases, ap₂, ◌∙◌, Bool-cases, ◌==◌, inl, inr, pos_part,
  neg_part, ◌+◌, ◌-◌,
}
use native.Mathlib.Nat.{mod-lt}
use redbase.Paged.Code.{hash_not_found, hash_page_exist}
use redbase.Paged.Hash.{
  Entry, HashTable, hash, is_entry, scan, cut, find, insert, delete, same_page,
}
use redbase.Paged.Outcome.{ok, err}

-- What the table holds for a page; none also for a page that no bucket can hold.
unfoldable pub slot_of : HashTable → ℤ → ℤ → Option ℕ
unfolding scan
slot_of h fd page = elim (hash h.num_buckets fd page) [
  | negsuc _ ↦ none
  | pos b ↦ scan fd page (h.buckets b)
]

-- No two entries of a list are for one page.
abbrev pub IsUnique : List Entry → Type 0
IsUnique [] = Unit
IsUnique (e ∷ es) = (scan e.fd e.page es ≡ none) × IsUnique es

-- The invariant of a table.
abbrev pub IsValid : HashTable → Type 0
IsValid h = (b : ℕ) → IsUnique (h.buckets b)

-- A sum that is not negative has a bucket, and a page that has one is found through `find`.
pub hash-IsPlaced :
    (h : HashTable) (fd page : ℤ)
    → 0 < h.num_buckets
    → neg_part fd + neg_part page ≤ pos_part fd + pos_part page
    → (b : ℕ) × (hash h.num_buckets fd page ≡ pos b) × (b < h.num_buckets)
unfolding hash rem ◌+ℤ◌
hash-IsPlaced h fd page n p = (
  (pos_part fd + pos_part page - (neg_part fd + neg_part page)) % h.num_buckets,
  ground arith,
  mod-lt _ n,
)

pub same_page→eq : (f p g q : ℤ) → same_page f p g q ≡ true → (f ≡ g) × (p ≡ q)
unfolding same_page
same_page→eq f p g q h = ground arith

pub same_page_refl : (f p : ℤ) → same_page f p f p ≡ true
unfolding same_page
same_page_refl f p = ground arith

pub same_page_symm : (f p g q : ℤ) → same_page f p g q ≡ same_page g q f p
unfolding same_page
same_page_symm f p g q = ground arith

-- What is asked of one of two equal pages can be asked of the other.
pub same_page_congr {ℓ} :
    {A : Type ℓ} (r : ℤ → ℤ → A) (f p g q : ℤ) → same_page f p g q ≡ true → r f p ≡ r g q
same_page_congr r f p g q h = let (a, b) = same_page→eq f p g q h in ap₂ r a b

scan-cut :
    (f p g q : ℤ) (es : List Entry)
    → IsUnique es
    → scan g q (cut f p es) ≡ (if same_page f p g q then none else scan g q es)
unfolding scan cut
scan-cut f p g q [] u = ground arith
scan-cut f p g q (e ∷ es) (fresh, u) = ground (
  arith,
  scan-cut f p g q es u,
  same_page_congr (λ a b. scan a b es) e.fd e.page g q,
  same_page_congr (λ a b. same_page a b g q) e.fd e.page f p,
  same_page_congr (λ a b. same_page a b f p) e.fd e.page g q,
  same_page_symm f p g q,
)

cut-IsUnique : (f p : ℤ) (es : List Entry) → IsUnique es → IsUnique (cut f p es)
unfolding cut
cut-IsUnique f p [] u = u
cut-IsUnique f p (e ∷ es) (fresh, u) = elim (Bool-cases (is_entry f p e)) [
  | inl here ↦ rw (cut, here) u
  | inr other ↦
      rw (cut, other) (scan-cut f p e.fd e.page es u ∙ ground (arith, fresh), cut-IsUnique f p es u)
]

-- `find` reads the map and leaves the table alone.
pub find-slot_of :
    (h : HashTable) (fd page : ℤ)
    → find fd page h ≡ (elim (slot_of h fd page) [ none ↦ err h hash_not_found | some s ↦ ok h s ])
unfolding find slot_of
find-slot_of h fd page = ground arith

-- `new` differs from `old` in what it holds for one page.
pub record IsUpdated (old new : HashTable) (fd page : ℤ) (v : Option ℕ) : Type 0 where
  pub valid : IsValid new
  pub width : new.num_buckets ≡ old.num_buckets
  pub reads : (g q : ℤ) → slot_of new g q ≡ (if same_page fd page g q then v else slot_of old g q)

set-IsUpdated :
    (h : HashTable) (fd page : ℤ) (b : ℕ) (v : Option ℕ) (es : List Entry)
    → IsValid h
    → hash h.num_buckets fd page ≡ pos b
    → IsUnique es
    → ((g q : ℤ) → scan g q es ≡ (if same_page fd page g q then v else scan g q (h.buckets b)))
    → IsUpdated h (record h { buckets = update h.buckets b es }) fd page v
unfolding slot_of
set-IsUpdated h fd page b v es valid at unique reads = record {
  valid = λ c. elim (Bool-cases (c == b)) [ inl e ↦ rw e unique | inr e ↦ rw e (valid c) ];
  width = refl;
  reads = λ g q. ground (arith, reads g q, same_page_congr (hash h.num_buckets) fd page g q);
}

-- In a valid table, for a page whose hash is not negative, `insert` of a page that the table does not hold
-- adds it, with the slot, and changes nothing else; a page that it holds is refused, with nothing changed.
pub insert-IsUpdated :
    (h : HashTable) (fd page : ℤ) (slot b : ℕ)
    → IsValid h
    → hash h.num_buckets fd page ≡ pos b
    → (slot_of h fd page ≡ none
        → (h' : HashTable) × (insert fd page slot h ≡ ok h' tt)
          × IsUpdated h h' fd page (some slot))
      × (slot_of h fd page ≢ none → insert fd page slot h ≡ err h hash_page_exist)
unfolding insert slot_of
insert-IsUpdated h fd page slot b valid at =
    rw (at, slot_of, insert)
      (
        λ new. (
          record h {
            buckets =
                update h.buckets b (record { fd = fd; page = page; slot = slot } ∷ h.buckets b);
          },
          rw new,
          set-IsUpdated h fd page b (some slot) _ valid at (new, valid b) (λ g q. refl),
        ),
        λ old. elim (Option-cases (scan fd page (h.buckets b))) [
          | inl e ↦ absurd (old e)
          | inr (s, e) ↦ rw e
        ],
      )

-- In a valid table, for a page whose hash is not negative, `delete` of a page that the table holds takes it
-- out and changes nothing else; a page that it does not hold is refused, with nothing changed.
pub delete-IsUpdated :
    (h : HashTable) (fd page : ℤ) (b : ℕ)
    → IsValid h
    → hash h.num_buckets fd page ≡ pos b
    → (slot_of h fd page ≢ none
        → (h' : HashTable) × (delete fd page h ≡ ok h' tt) × IsUpdated h h' fd page none)
      × (slot_of h fd page ≡ none → delete fd page h ≡ err h hash_not_found)
unfolding delete slot_of
delete-IsUpdated h fd page b valid at =
    rw (at, slot_of, delete)
      (
        λ old. elim (Option-cases (scan fd page (h.buckets b))) [
          | inl e ↦ absurd (old e)
          | inr (s, e) ↦ (
            record h { buckets = update h.buckets b (cut fd page (h.buckets b)) },
            rw e,
            set-IsUpdated h fd page b none (cut fd page (h.buckets b)) valid at
                (cut-IsUnique fd page _ (valid b))
                (λ g q. scan-cut fd page g q (h.buckets b) (valid b)),
          )
        ],
        λ new. rw new,
      )
