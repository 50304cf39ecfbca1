-- ===== src/Paged/Buffer/Alloc.antt =====
-- `InternalAlloc` on the used list, on each of its branches.
use redbase.Base.{
  by_==, ℕ, ◌+◌, ◌≤◌, ◌≡◌, refl, sym, ◌∙◌, subst, ap, Option, none, some, Option-cases, List, [],
  ◌∷◌, ◌++◌, length, Bool-cases, inl, inr, ◌==◌, negsuc, arith,
}
use redbase.Paged.Buffer.Alike.{
  KeepsPlaces, Deletes, Alike-Uses, write_if_dirty-Alike, delete-Alike, Alike,
}
use redbase.Paged.Buffer.Links.Lists.{Uses, IsDistinct-IsSplit, append-NotIn, link_head-Uses}
use redbase.Paged.Buffer.Links.Unlink.{unlink-Uses}
use redbase.Paged.Buffer.Links.Victim.{last_unpinned, chosen, find_victim_lem}
use redbase.Paged.Buffer.Pages.{touch}
use redbase.Paged.Buffer.{
  Buffer, Desc, Os, on_hash, link_head, unlink, find_victim, write_if_dirty, internal_alloc,
}
use redbase.Paged.Hash.{hash, delete}
use redbase.Paged.Outcome.{Outcome, ok, err, fault, Op, ◌>>=◌, ◌>>◌, pure, modify, bind_lem}

some-injective : {x y : ℕ} → some x ≡ some y → x ≡ y
some-injective e = ground arith

-- A slot that is not pinned, in its sequence.
last_unpinned-split :
    (t : ℕ → Desc) (xs : List ℕ) (s : ℕ)
    → last_unpinned t xs ≡ some s
    → (before after : List ℕ) × (xs ≡ before ++ s ∷ after) × ((t s).pins ≡ 0)
last_unpinned-split t [] s e = absurd (cc)
last_unpinned-split t (x ∷ xs) s e = elim (Option-cases (last_unpinned t xs)) [
  | inr (z, q) ↦
      let later : last_unpinned t (x ∷ xs) ≡ some z = rw (q) refl in
      let (before, after, split, free) = last_unpinned-split t xs s (q ∙ sym later ∙ e) in
      (x ∷ before, after, ap (◌∷◌ x) split, free)
  | inl q ↦ elim (Bool-cases ((t x).pins == 0)) [
    | inl free ↦
        let here : last_unpinned t (x ∷ xs) ≡ some x = rw (q, free) refl in
        let same : x ≡ s = some-injective (sym here ∙ e) in
        ([], xs, ap (λ y. y ∷ xs) same, by_== (ap (λ y. (t y).pins == 0) (sym same) ∙ free))
    | inr pinned ↦
        let nothing : last_unpinned t (x ∷ xs) ≡ none = rw (q, pinned) refl in absurd (cc)
  ]
]

module _ {F : Type 0} where
  -- The slot `s` of the sequence `xs` is now the first of the used list; the others keep their order.
  pub record Moved (xs : List ℕ) (s : ℕ) (b : Buffer F) : Type 0 where
    pub before : List ℕ
    pub after : List ℕ
    pub split : xs ≡ before ++ s ∷ after
    pub uses : Uses b (s ∷ (before ++ after))

  pub touch-Uses :
      (b : Buffer F) (before : List ℕ) (s : ℕ) (after : List ℕ)
      → Uses b (before ++ s ∷ after)
      → Uses (touch s b) (s ∷ (before ++ after))
  touch-Uses b before s after u =
      let parts = IsDistinct-IsSplit before s after u.1 in
      link_head-Uses (unlink s b) s (before ++ after) (unlink-Uses b before s after u)
        (append-NotIn s before after parts.not_left parts.not_right)

  -- A slot on the used list is made the most recently used one.
  pub touch-Moved :
      (b : Buffer F) (xs before : List ℕ) (s : ℕ) (after : List ℕ)
      → Uses b xs
      → xs ≡ before ++ s ∷ after
      → Moved xs s (touch s b)
  touch-Moved b xs before s after u e = record {
    before = before;
    after = after;
    split = e;
    uses = touch-Uses b before s after (subst (Uses b) e u);
  }

  -- How the search for a slot in a buffer without free slots ends: with the least recently used slot
  -- that is not pinned in front, with a code and the used list as it was, or outside the array of
  -- the hash table, for the page of a slot that it never holds.
  abbrev pub Allocates : Buffer F → List ℕ → Outcome (Buffer F) ℕ → Type 0
  Allocates b xs (ok c s) = (last_unpinned b.table xs ≡ some s) × Moved xs s c
  Allocates b xs (err c k) = Uses c xs
  Allocates b xs fault =
      (s : ℕ) × (k : ℕ) × (hash b.hash_table.num_buckets (b.table s).fd (b.table s).page ≡ negsuc k)

module _ {F : Type 0} ⦃os : Os F⦄ where
  -- The steps of `InternalAlloc` after its search.
  abbrev take_over : ℕ → Op (Buffer F) ℕ
  take_over slot = do
    write_if_dirty slot
    (λ b'. on_hash (delete (b'.table slot).fd (b'.table slot).page) b')
    modify (unlink slot)
    modify (link_head slot)
    pure slot

  take_over_written :
      (b c : Buffer F) (xs before : List ℕ) (s : ℕ) (after : List ℕ)
      → Uses b xs
      → last_unpinned b.table xs ≡ some s
      → xs ≡ before ++ s ∷ after
      → Alike b c
      → Allocates b xs (
          (on_hash (delete (c.table s).fd (c.table s).page)
              >> (modify (unlink s) >> (modify (link_head s) >> pure s)))
            c)
  take_over_written b c xs before s after u e split like =
      let fd = (c.table s).fd in
      let page = (c.table s).page in
      let v = Alike-Uses b c xs like u in
      let (_, _, same_page, same_fd, _) = like.places s in
      bind_lem (Deletes fd page c) (Allocates b xs) (on_hash (delete fd page))
        (λ _. modify (unlink s) >> (modify (link_head s) >> pure s)) c (delete-Alike fd page c)
        (λ d _ kept. (e, touch-Moved d xs before s after (Alike-Uses c d xs kept v) split))
        (λ d k kept. Alike-Uses c d xs kept v)
        (λ broken.
          let (k, h) = broken in (s, k, rw (sym like.num_buckets, sym same_fd, sym same_page) h))

  take_over_lem :
      (b : Buffer F) (xs : List ℕ) (s : ℕ)
      → Uses b xs
      → last_unpinned b.table xs ≡ some s
      → Allocates b xs (take_over s b)
  take_over_lem b xs s u e =
      let (before, after, split, _) = last_unpinned-split b.table xs s e in
      bind_lem (KeepsPlaces b) (Allocates b xs) (write_if_dirty s) _ b (write_if_dirty-Alike s b)
        (λ c _ like. take_over_written b c xs before s after u e split like)
        (λ c k like. Alike-Uses b c xs like u) (λ broken. absurd broken)

  searched :
      (b : Buffer F) (xs : List ℕ) (o : Option ℕ)
      → Uses b xs
      → last_unpinned b.table xs ≡ o
      → Allocates b xs
          (elim (chosen b o) [ ok c s ↦ take_over s c | err c k ↦ err c k | fault ↦ fault ])
  searched b xs none u e = u
  searched b xs (some s) u e = take_over_lem b xs s u e

  -- `InternalAlloc` of a buffer that has no free slot, and at most as many slots on the used list as
  -- slots: on success the slot is the least recently used one that is not pinned, and it is moved
  -- to the front of the used list, whose other slots keep their order; with any error code the used
  -- list is as it was. The only access outside an array is in the hash table, for a page whose
  -- bucket is negative.
  pub internal_alloc-Allocates :
      (b : Buffer F) (xs : List ℕ)
      → Uses b xs
      → length xs ≤ b.num_pages
      → b.free ≡ none
      → Allocates b xs (internal_alloc b)
  unfolding internal_alloc
  internal_alloc-Allocates b xs u h f =
      subst
        (λ o. Allocates b xs (elim o [
          | some slot ↦
              (modify (link_head slot) >> pure slot) (record b { free = (b.table slot).next })
          | none ↦ (find_victim (b.num_pages + 1) b.last >>= take_over) b
        ]))
        (sym f)
        (subst
          (λ o.
            Allocates b xs (elim o [ ok c s ↦ take_over s c | err c k ↦ err c k | fault ↦ fault ]))
          (sym (find_victim_lem b xs u h)) (searched b xs (last_unpinned b.table xs) u refl))
