-- ===== src/Paged/Hash.antt =====
-- `PF_HashTable` of src/pf_hashtable.h and src/pf_hashtable.cc. A bucket's linked list is a list of
-- its entries, head first; the array of buckets is a function of the index.
pub mod Laws
use redbase.Base.{
  ℕ, Bool, ◌&&◌, Option, none, some, List, [], ◌∷◌, if◌then◌else◌, update, ℤ, pos, negsuc, ◌+ℤ◌,
  rem, eqb_ℤ,
}
use redbase.Paged.Code.{hash_not_found, hash_page_exist}
use redbase.Paged.Outcome.{Outcome, ok, err, fault, Op}

pub record Entry : Type 0 where
  pub fd : ℤ
  pub page : ℤ
  pub slot : ℕ

pub record HashTable : Type 0 where
  pub num_buckets : ℕ
  pub buckets : ℕ → List Entry

unfoldable pub new_table : ℕ → HashTable
new_table n = record { num_buckets = n; buckets = λ i. [] }

-- `Hash`: the remainder has the sign of the sum. (The sum is taken not to overflow.)
unfoldable pub hash : ℕ → ℤ → ℤ → ℤ
hash num_buckets fd page = rem (fd +ℤ page) num_buckets

-- `fd == g && page == q`
unfoldable pub same_page : ℤ → ℤ → ℤ → ℤ → Bool
same_page fd page g q = eqb_ℤ fd g && eqb_ℤ page q

abbrev pub is_entry : ℤ → ℤ → Entry → Bool
is_entry fd page e = same_page e.fd e.page fd page

-- The loop of all three methods: the slot of the first entry for the page.
unfoldable pub scan : ℤ → ℤ → List Entry → Option ℕ
scan fd page [] = none
scan fd page (e ∷ es) = if is_entry fd page e then some e.slot else scan fd page es

-- The first entry for the page taken out of its list.
unfoldable pub cut : ℤ → ℤ → List Entry → List Entry
cut fd page [] = []
cut fd page (e ∷ es) = if is_entry fd page e then es else e ∷ cut fd page es

unfoldable pub find : ℤ → ℤ → Op HashTable ℕ
unfolding scan
find fd page h = elim (hash h.num_buckets fd page) [
  | negsuc _ ↦ err h hash_not_found
  | pos b ↦ elim (scan fd page (h.buckets b)) [ none ↦ err h hash_not_found | some s ↦ ok h s ]
]

-- `Insert` makes no test of the bucket: a negative one is an access in front of the array.
unfoldable pub insert : ℤ → ℤ → ℕ → Op HashTable (Unit {0})
unfolding scan
insert fd page slot h = elim (hash h.num_buckets fd page) [
  | negsuc _ ↦ fault
  | pos b ↦ elim (scan fd page (h.buckets b)) [
    | some _ ↦ err h hash_page_exist
    | none ↦
        ok
          (record h {
            buckets =
                update h.buckets b (record { fd = fd; page = page; slot = slot } ∷ h.buckets b);
          })
          tt
  ]
]

unfoldable pub delete : ℤ → ℤ → Op HashTable (Unit {0})
unfolding scan cut
delete fd page h = elim (hash h.num_buckets fd page) [
  | negsuc _ ↦ fault
  | pos b ↦ elim (scan fd page (h.buckets b)) [
    | none ↦ err h hash_not_found
    | some _ ↦ ok (record h { buckets = update h.buckets b (cut fd page (h.buckets b)) }) tt
  ]
]
