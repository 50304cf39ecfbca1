-- ===== src/Operator/Project/Output.antt =====
-- The tuples of the projection of src/projection.cc: the fields one behind the other.
use redbase.Base.{
  ℕ, ◌+◌, ◌-◌, ◌<◌, ◌≤◌, ◌≡◌, refl, sym, ap, ◌∙◌, fun_ext, ltb, false, if◌then◌else◌, some, List,
  [], ◌∷◌, map, ℤ, pos, eqb_ℤ, arith, lt→ltb, le-cases, Option-cases, inl, inr,
}
use redbase.Bytes.{Bytes, copy_at}
use redbase.Operator.Project.{
  AggRelAttr, Field, find_attr, make_fields, make_projection, field_attrs, project, within,
  get_projected, projection,
}
use redbase.Operator.Scans.{Scans}
use redbase.Operator.{DataAttrInfo, tuple_length, at, Iterator}

-- The fields lie behind each other from this offset on.
abbrev pub IsPacked : ℕ → List Field → Type 0
IsPacked n [] = Unit {0}
IsPacked n (x ∷ xs) = (x.target ≡ n) × IsPacked (n + x.source.attr_length) xs

-- The bytes of a tuple's fields, one field behind the other.
unfoldable pub packed : List Field → Bytes → Bytes
packed [] buf i = 0
packed (x ∷ xs) buf i =
    let rest = packed xs buf (i - x.source.attr_length) in
    if ltb i x.source.attr_length then at x.source.offset buf i else rest

make_fields-IsPacked :
    (n : ℕ) (lattrs : List DataAttrInfo) (ps : List AggRelAttr)
    → IsPacked n ((make_fields n lattrs ps).0)
unfolding make_fields
make_fields-IsPacked n lattrs [] = tt
make_fields-IsPacked n lattrs (p ∷ ps) = elim (Option-cases (find_attr p lattrs)) [
  | inl e ↦ rw (e, make_fields, IsPacked) tt
  | inr (a, e) ↦
      rw (e, make_fields, IsPacked) (refl, make_fields-IsPacked (n + a.attr_length) lattrs ps)
]

pub make_projection-IsPacked :
    (lattrs : List DataAttrInfo) (ps : List AggRelAttr) → IsPacked 0 ((make_projection lattrs ps).0)
unfolding make_projection
make_projection-IsPacked lattrs [] = tt
make_projection-IsPacked lattrs (p ∷ ps) = make_fields-IsPacked 0 lattrs (p ∷ ps)

project-below :
    (n i : ℕ) (xs : List Field) (l t : Bytes) → IsPacked n xs → i < n → project xs l t i ≡ t i
unfolding project copy_at
project-below n i [] l t packed less = refl
project-below n i (x ∷ xs) l t (e, packed) less =
    project-below (n + x.source.attr_length) i xs l
      (copy_at x.target x.source.attr_length (at x.source.offset l) t) packed (omega arith)
    ∙ ground arith

project-inside :
    (n i : ℕ) (xs : List Field) (l t : Bytes)
    → IsPacked n xs
    → i < tuple_length (field_attrs xs)
    → project xs l t (n + i) ≡ packed xs l i
unfolding project copy_at packed tuple_length field_attrs
project-inside n i [] l t p less = elim less [ ]
project-inside n i (x ∷ xs) l t (e, p) less = elim (le-cases i x.source.attr_length) [
  | inl before ↦
      rw (lt→ltb i x.source.attr_length before)
        (project-below (n + x.source.attr_length) (n + i) xs l t' p (omega arith) ∙ grind arith)
  | inr behind ↦
      let off : ltb i x.source.attr_length ≡ false = ground arith in
      let back : n + x.source.attr_length + (i - x.source.attr_length) ≡ n + i = omega arith in
      let rest =
        project-inside (n + x.source.attr_length) (i - x.source.attr_length) xs l t' p
          (omega arith) in
      rw (off) (ap (project xs l t') (sym back) ∙ rest)
]
  where
    t' : Bytes
    t' = copy_at x.target x.source.attr_length (at x.source.offset l) t

packed-beyond :
    (i : ℕ) (xs : List Field) (l : Bytes) → tuple_length (field_attrs xs) ≤ i → packed xs l i ≡ 0
unfolding packed tuple_length field_attrs
packed-beyond i [] l more = refl
packed-beyond i (x ∷ xs) l more =
    let rest = packed-beyond (i - x.source.attr_length) xs l (omega arith) in ground arith

pub within-packed :
    (xs : List Field) (l t : Bytes)
    → IsPacked 0 xs
    → within (tuple_length (field_attrs xs)) (project xs l t) ≡ packed xs l
unfolding within
within-packed xs l t p = fun_ext (λ i. elim (le-cases i (tuple_length (field_attrs xs))) [
  | inl before ↦
      rw (lt→ltb i (tuple_length (field_attrs xs)) before)
        (ap (project xs l t) (omega arith) ∙ project-inside 0 i xs l t p before)
  | inr behind ↦
      let off : ltb i (tuple_length (field_attrs xs)) ≡ false = ground arith in
      rw (off) (sym (packed-beyond i xs l behind))
])

eqb_ℤ-flip : (a b : ℤ) → eqb_ℤ a b ≡ false → eqb_ℤ b a ≡ false
eqb_ℤ-flip a b h = grind arith

module _ {I : Type 0} {it : Iterator I} {all : List Bytes} {IsClosed : I → Type 0}
    (fields : List Field) (scans : Scans it all IsClosed) where
  abbrev Rest : List Bytes → I → Type 0
  Rest zs s = (xs : List Bytes) × scans.IsRest xs s × (map (packed fields) xs ≡ zs)

  next_lem :
      IsPacked 0 fields
      → (s : I) (t z : Bytes) (zs : List Bytes) → Rest (z ∷ zs) s
      → (u : I) × (get_projected it fields t s ≡ some (u, z, pos 0)) × Rest zs u
  unfolding get_projected
  next_lem p s t z zs ([], rest, e) = ground arith
  next_lem p s t z zs (x ∷ xs, rest, e) =
      let (u, next, rest') = scans.next s (λ _. 0) x xs rest in
      let first : packed fields x ≡ z = grind arith in
      let others : map (packed fields) xs ≡ zs = grind arith in
      (u, rw (next, get_projected, within-packed fields x t p, first) refl, (xs, rest', others))

  end_lem :
      (s : I) (t : Bytes)
      → Rest [] s
      → (u : I) × (r : Bytes) × (get_projected it fields t s ≡ some (u, r, it.eof)) × scans.IsDone u
  unfolding get_projected
  end_lem s t (x ∷ xs, rest, e) = ground arith
  end_lem s t ([], rest, e) =
      let (u, r, end, done) = scans.ended s (λ _. 0) rest in
      let ne : eqb_ℤ it.eof (pos 0) ≡ false = eqb_ℤ-flip (pos 0) it.eof scans.eof_ne in
      (u, t, rw (end, get_projected, ne) refl, done)

  -- The projection of an iterator, its fields behind each other as the constructor places them, is an
  -- iterator of the packed fields of the same tuples in the same order.
  pub projection-Scans :
      IsPacked 0 fields → Scans (projection it fields) (map (packed fields) all) IsClosed
  projection-Scans p = record {
    IsDone = scans.IsDone;
    IsRest = Rest;
    eof_ne = scans.eof_ne;
    eof_eq = scans.eof_eq;
    opened = λ s shut. let (u, e, rest) = scans.opened s shut in (u, e, (all, rest, refl));
    next = next_lem p;
    ended = end_lem;
    closed = λ s zs rest. scans.closed s rest.0 rest.1;
    closed_done = scans.closed_done;
    closed_twice = scans.closed_twice;
  }
