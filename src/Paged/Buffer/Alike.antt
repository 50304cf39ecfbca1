-- ===== src/Paged/Buffer/Alike.antt =====
-- The steps of the buffer manager that leave the used list alone: the transfer of a page and the
-- work on the hash table.
use redbase.Base.{
  by_==, ℕ, ◌≡◌, refl, sym, ◌∙◌, subst, subst₂, none, Option-cases, List, [], ◌∷◌, Bool, false,
  Bool-cases, inl, inr, ◌==◌, ℤ, pos, negsuc, ℤ-cases, ltb_ℤ, eqb_ℤ,
}
use redbase.Paged.Buffer.Links.{Run, Agree, Agree-Run}
use redbase.Paged.Buffer.Links.Lists.{Uses}
use redbase.Paged.Buffer.{
  Buffer, Desc, Os, on_hash, set_dirty, write_page, write_if_dirty, file_offset,
}
use redbase.Paged.Hash.{hash, scan, delete}
use redbase.Paged.Outcome.{Outcome, ok, err, fault, modify, bind_lem}

-- The description of a slot stands for the same page, at the same place of the lists.
abbrev pub SamePlace : Desc → Desc → Type 0
SamePlace d e =
    (e.next ≡ d.next) × (e.prev ≡ d.prev) × (e.page ≡ d.page) × (e.fd ≡ d.fd) × (e.pins ≡ d.pins)

module _ {F : Type 0} where
  pub record Alike (b c : Buffer F) : Type 0 where
    pub first : c.first ≡ b.first
    pub last : c.last ≡ b.last
    pub num_buckets : c.hash_table.num_buckets ≡ b.hash_table.num_buckets
    pub places : (i : ℕ) → SamePlace (b.table i) (c.table i)

  -- However the step ends, the buffer is as before up to the files, the dirty bits and the hash table.
  abbrev pub KeepsPlaces : {A : Type 0} → Buffer F → Outcome (Buffer F) A → Type 0
  KeepsPlaces b (ok c a) = Alike b c
  KeepsPlaces b (err c k) = Alike b c
  KeepsPlaces b fault = ⊥

  same_table :
      (b c : Buffer F)
      → c.first ≡ b.first
      → c.last ≡ b.last
      → c.hash_table.num_buckets ≡ b.hash_table.num_buckets
      → c.table ≡ b.table
      → Alike b c
  same_table b c f l n e = record {
    first = f;
    last = l;
    num_buckets = n;
    places = λ i. subst (λ t. SamePlace (b.table i) (t i)) (sym e) (refl, refl, refl, refl, refl);
  }

  pub Alike-trans : (b c d : Buffer F) → Alike b c → Alike c d → Alike b d
  Alike-trans b c d x y = record {
    first = y.first ∙ x.first;
    last = y.last ∙ x.last;
    num_buckets = y.num_buckets ∙ x.num_buckets;
    places = λ i.
        let (n, p, q, f, k) = x.places i in
        let (n', p', q', f', k') = y.places i in (n' ∙ n, p' ∙ p, q' ∙ q, f' ∙ f, k' ∙ k);
  }

  Alike-Agree : (b c : Buffer F) → Alike b c → (xs : List ℕ) → Agree b.table c.table xs
  Alike-Agree b c h [] = tt
  Alike-Agree b c h (x ∷ xs) = let (n, p, _, _, _) = h.places x in (n, p, Alike-Agree b c h xs)

  pub Alike-Uses : (b c : Buffer F) (xs : List ℕ) → Alike b c → Uses b xs → Uses c xs
  Alike-Uses b c xs h (r, d) = (
    subst₂ (λ f l. Run c.table none f xs l none) (sym h.first) (sym h.last)
        (Agree-Run b.table c.table none b.first b.last none xs (Alike-Agree b c h xs) r),
    d,
  )

  pub set_dirty-Alike : (v : Bool) (s : ℕ) (b : Buffer F) → Alike b (set_dirty v s b)
  set_dirty-Alike v s b = record {
    first = refl;
    last = refl;
    num_buckets = refl;
    places = λ i. elim (Bool-cases (i == s)) [
      | inl e ↦ rw (e) (
          subst (λ k. SamePlace (b.table i) (record (b.table k) { dirty = v })) (by_== e)
            (refl, refl, refl, refl, refl))
      | inr e ↦ rw (e) (refl, refl, refl, refl, refl)
    ];
  }

module _ {F : Type 0} ⦃os : Os F⦄ where
  write_page-Alike : (fd page : ℤ) (s : ℕ) (b : Buffer F) → KeepsPlaces b (write_page fd page s b)
  unfolding write_page
  write_page-Alike fd page s b =
      let (f, at) = os.lseek fd (file_offset page b) b.files in
      let (g, n) = os.write fd b.page_size (b.table s).bytes f in
      elim (Bool-cases (ltb_ℤ at (pos 0))) [
        | inl e ↦ rw (e) (same_table b (record b { files = f }) refl refl refl refl)
        | inr e ↦
            let kept = same_table b (record b { files = g }) refl refl refl refl in
            rw (e) (elim (Bool-cases (ltb_ℤ n (pos 0))) [
              | inl e' ↦ rw (e') kept
              | inr e' ↦ rw (e') (elim (Bool-cases (eqb_ℤ n (pos b.page_size))) [
                | inl q ↦ rw (q) kept
                | inr q ↦ rw (q) kept
              ])
            ])
      ]

  pub write_if_dirty-Alike : (s : ℕ) (b : Buffer F) → KeepsPlaces b (write_if_dirty s b)
  unfolding write_if_dirty
  write_if_dirty-Alike s b = elim (Bool-cases (b.table s).dirty) [
    | inl e ↦ rw (e) (
        bind_lem (KeepsPlaces b) (KeepsPlaces b) (write_page (b.table s).fd (b.table s).page s)
          (λ _. modify (set_dirty false s)) b (write_page-Alike (b.table s).fd (b.table s).page s b)
          (λ c _ kept. Alike-trans b c (set_dirty false s c) kept (set_dirty-Alike false s c))
          (λ c k kept. kept) (λ broken. broken))
    | inr e ↦ rw (e) (same_table b b refl refl refl refl)
  ]

-- `Delete` from the hash table in the buffer; it runs off the array for a negative bucket.
module _ {F : Type 0} where
  abbrev pub Deletes : ℤ → ℤ → Buffer F → Outcome (Buffer F) (Unit {0}) → Type 0
  Deletes fd page b (ok c _) = Alike b c
  Deletes fd page b (err c _) = Alike b c
  Deletes fd page b fault = (k : ℕ) × (hash b.hash_table.num_buckets fd page ≡ negsuc k)

  pub delete-Alike : (fd page : ℤ) (b : Buffer F) → Deletes fd page b (on_hash (delete fd page) b)
  unfolding delete
  delete-Alike fd page b =
      let h = b.hash_table in
      elim (ℤ-cases (hash h.num_buckets fd page)) [
        | inr (k, e) ↦ rw (e, Deletes) (k, e)
        | inl (n, e) ↦
            rw (e, Deletes)
              (elim (Option-cases (scan fd page (h.buckets n))) [
                | inl q ↦ rw (q) (same_table b _ refl refl refl refl)
                | inr (s, q) ↦ rw (q) (same_table b _ refl refl refl refl)
              ])
      ]
