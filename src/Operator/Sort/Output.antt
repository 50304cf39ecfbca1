-- ===== src/Operator/Sort/Output.antt =====
-- The tuples that the operator of src/sort.h gives.
use mathlib.Core.List.{Permᴰ}
use redbase.Base.{
  ℕ, zero, suc, ◌+◌, ◌<◌, ◌≡◌, refl, ap, ◌∙◌, Bool, true, false, some, List, [], ◌∷◌, ◌++◌, length,
  pos, negsuc, arith, subst,
}
use redbase.Btree.Compare.{IsTotal}
use redbase.Bytes.{Bytes, Floats}
use redbase.Operator.Scans.{Scans}
use redbase.Operator.Sort.Order.{IsAscending, insert_all, insert_all-Perm, insert_all-IsAscending}
use redbase.Operator.Sort.Keys.{tuple_less-IsWeakOrder}
use redbase.Operator.Sort.{
  SortPlan, Sort, tuple_less, insert_tuple, reverse_onto, load, load_set, open_sort, next_sorted,
  get_next_sorted, close_sort, sort_iterator,
}
use redbase.Operator.{Iterator}
use redbase.Record.File.{not_open}

abbrev pub chosen : Bool → List Bytes → List Bytes → List Bytes
chosen true it rit = rit
chosen false it rit = it

-- The tuples of a multiset in the direction of the sort.
unfoldable pub in_direction : Bool → List Bytes → List Bytes
unfolding reverse_onto
in_direction d xs = chosen d xs (reverse_onto xs [])

append_nil : (xs : List Bytes) → xs ++ [] ≡ xs
append_nil [] = refl
append_nil (x ∷ xs) = ap (λ ys. x ∷ ys) (append_nil xs)

length-reverse_onto : (xs acc : List Bytes) → length (reverse_onto xs acc) ≡ length xs + length acc
unfolding reverse_onto
length-reverse_onto [] acc = omega arith
length-reverse_onto (x ∷ xs) acc = omega (arith, length-reverse_onto xs (x ∷ acc))

next_sorted_lem :
    {I : Type 0} (d : Bool) (it rit : List Bytes) (t z : Bytes) (zs : List Bytes) (s : Sort I)
    → chosen d it rit ≡ z ∷ zs
    → length it ≡ length rit
    → (xs : List Bytes) × (ys : List Bytes) × (next_sorted d it rit t s
        ≡ some (record s { it = xs; rit = ys }, z, pos 0))
      × (chosen d xs ys ≡ zs)
      × (length xs ≡ length ys)
unfolding next_sorted
next_sorted_lem d [] (y ∷ ys) t z zs s e same = ground arith
next_sorted_lem d (x ∷ xs) [] t z zs s e same = ground arith
next_sorted_lem true [] [] t z zs s e same = ground arith
next_sorted_lem false [] [] t z zs s e same = ground arith
next_sorted_lem true (x ∷ xs) (y ∷ ys) t z zs s e same =
    let first : y ≡ z = grind arith in
    let others : ys ≡ zs = grind arith in (xs, ys, rw (first) refl, others, omega arith)
next_sorted_lem false (x ∷ xs) (y ∷ ys) t z zs s e same =
    let first : x ≡ z = grind arith in
    let others : xs ≡ zs = grind arith in (xs, ys, rw (first) refl, others, omega arith)

next_sorted_end :
    {I : Type 0} (d : Bool) (it rit : List Bytes) (t : Bytes) (s : Sort I)
    → chosen d it rit ≡ []
    → length it ≡ length rit
    → next_sorted d it rit t s ≡ some (s, t, negsuc 408)
unfolding next_sorted
next_sorted_end d [] rit t s e same = refl
next_sorted_end d (x ∷ xs) [] t s e same = refl
next_sorted_end true (x ∷ xs) (y ∷ ys) t s e same = ground arith
next_sorted_end false (x ∷ xs) (y ∷ ys) t s e same = ground arith

-- A sort that is closed, with a closed input and without tuples.
abbrev pub SortShut : {I : Type 0} → (I → Type 0) → Sort I → Type 0
SortShut IsClosed s = (s.iter_open ≡ false) × IsClosed s.lhs × (s.set ≡ [])

module _ {I : Type 0} {it : Iterator I} {all : List Bytes} {IsClosed : I → Type 0} (f : Floats)
    (p : SortPlan) (scans : Scans it all IsClosed) where
  abbrev Loaded : Sort I → Type 0
  Loaded s = (s.iter_open ≡ true) × scans.IsDone s.lhs

  abbrev Rest : List Bytes → Sort I → Type 0
  Rest zs s = Loaded s × (chosen p.desc s.it s.rit ≡ zs) × (length s.it ≡ length s.rit)

  load_lem :
      (n : ℕ) (xs set : List Bytes) (t : Bytes) (s : I)
      → length xs < n
      → scans.IsRest xs s
      → (u : I) × (load f p it n t set s ≡ some (u, insert_all (tuple_less f p) xs set))
        × scans.IsDone u
  unfolding load insert_all
  load_lem zero xs set t s less rest = elim less [ ]
  load_lem (suc n) [] set t s less rest =
      let (u, r, end, done) = scans.ended s t rest in (u, rw (end, load, scans.eof_eq) refl, done)
  load_lem (suc n) (x ∷ xs) set t s less rest =
      let (u, next, rest') = scans.next s t x xs rest in
      let (v, e, done) =
        load_lem n xs (insert_tuple (tuple_less f p) x set) x u (omega arith) rest' in
      (v, rw (next, load, scans.eof_ne, e) refl, done)

  open_sort_lem :
      length all < p.fuel
      → (s : Sort I) → SortShut IsClosed s
      → (u : Sort I) × (open_sort f p it s ≡ some (u, pos 0))
        × Rest (in_direction p.desc (insert_all (tuple_less f p) all [])) u
  unfolding open_sort load_set in_direction
  open_sort_lem enough s (off, shut, none_left) =
      let rows = insert_all (tuple_less f p) all [] in
      let (a, begin, rest) = scans.opened s.lhs shut in
      let (b, e, done) = load_lem p.fuel all [] (λ _. 0) a enough rest in
      (
        record { lhs = b; set = rows; it = rows; rit = reverse_onto rows []; iter_open = true },
        rw (off, open_sort, begin, load_set, none_left, e) refl,
        ((refl, done), refl, omega (arith, length-reverse_onto rows [])),
      )

  get_next_on :
      (t : Bytes) (s : Sort I)
      → s.iter_open ≡ true
      → get_next_sorted f p it t s ≡ next_sorted p.desc s.it s.rit t s
  unfolding get_next_sorted
  get_next_on t s on =
      ap (λ b. elim b [ false ↦ some (s, t, not_open) | true ↦ next_sorted p.desc s.it s.rit t s ])
        on

  next_lem :
      (s : Sort I) (t z : Bytes) (zs : List Bytes)
      → Rest (z ∷ zs) s
      → (u : Sort I) × (get_next_sorted f p it t s ≡ some (u, z, pos 0)) × Rest zs u
  next_lem s t z zs ((on, done), e, same) =
      let (xs, ys, next, e', same') = next_sorted_lem p.desc s.it s.rit t z zs s e same in
      (record s { it = xs; rit = ys }, get_next_on t s on ∙ next, ((on, done), e', same'))

  closes :
      (s : Sort I)
      → Loaded s
      → ((close_sort f p it s).1 ≡ pos 0) × SortShut IsClosed ((close_sort f p it s).0)
  unfolding close_sort
  closes s (on, done) =
      let (code, shut) = scans.closed_done s.lhs done in
      rw (on, close_sort, code) (refl, (refl, shut, refl))

  -- With more fuel than the input has tuples, the sort is an iterator of the input's tuples: a
  -- permutation in which no tuple is smaller than one before it, or for a descending sort the reverse
  -- of that, each time that it is opened. The comparison of floats is taken to be a total preorder.
  pub sort_iterator-Sorts :
      IsTotal f
      → length all < p.fuel
      → (rows : List Bytes) × Permᴰ all rows
        × IsAscending (tuple_less f p) rows
        × Scans (sort_iterator f p it) (in_direction p.desc rows) (SortShut IsClosed)
  unfolding close_sort
  sort_iterator-Sorts total enough = (
    insert_all (tuple_less f p) all [],
    subst (λ xs. Permᴰ xs (insert_all (tuple_less f p) all [])) (append_nil all)
        (insert_all-Perm (tuple_less f p) all []),
    insert_all-IsAscending (tuple_less f p) (tuple_less-IsWeakOrder f p total) all [] tt,
    record {
      IsDone = Loaded;
      IsRest = Rest;
      eof_ne = refl;
      eof_eq = refl;
      opened = open_sort_lem enough;
      next = next_lem;
      ended = λ s t rest. (
        s,
        t,
        get_next_on t s rest.0.0 ∙ next_sorted_end p.desc s.it s.rit t s rest.1 rest.2,
        rest.0,
      );
      closed = λ s zs rest. closes s rest.0;
      closed_done = closes;
      closed_twice = λ s shut. rw (shut.0, close_sort) shut;
    },
  )
