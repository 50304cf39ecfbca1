-- ===== src/Operator/Join/Pairs.antt =====
-- The tuples that the join of src/nested_loop_join.cc gives: a loop over the right input inside a loop
-- over the left.
use redbase.Base.{
  ℕ, zero, suc, ◌+◌, ◌*◌, ◌<◌, ◌≡◌, refl, true, false, Option, some, if◌then◌else◌, List, [], ◌∷◌,
  ◌++◌, length, ℤ, pos, negsuc, arith, Bool-cases, inl, inr, subst₂,
}
use native.Mathlib.Nat.{suc-mul}
use redbase.Bytes.{Bytes, Floats}
use redbase.Operator.Scans.{Scans}
use redbase.Operator.{Iterator}
use redbase.Operator.Join.{Plan, Join, passes, pair, advance, advance_left, reopen, next_pair}

module _ (f : Floats) (p : Plan) where
  -- The pairs of a left tuple that pass, and those of all left tuples.
  unfoldable pub row : Bytes → List Bytes → List Bytes
  row l [] = []
  row l (r ∷ rs) =
      let rest = row l rs in if passes f p.r_attrs p.o_filters l r then pair p l r ∷ rest else rest

  unfoldable pub joined : List Bytes → List Bytes → List Bytes
  unfolding row
  joined [] rs = []
  joined (l ∷ ls) rs = row l rs ++ joined ls rs

module _ {L R : Type 0} {lhs_it : Iterator L} {rhs_it : Iterator R} {ls : List Bytes} {r : Bytes}
    {rs : List Bytes} {LeftClosed : L → Type 0} {RightClosed : R → Type 0} (f : Floats) (p : Plan)
    (lhs : Scans lhs_it ls LeftClosed) (rhs : Scans rhs_it (r ∷ rs) RightClosed) where
  -- Open, with these tuples ahead in the left input, and in the right one for the present left tuple.
  pub record IsAhead (xs ys : List Bytes) (s : Join L R) : Type 0 where
    pub is_open : s.iter_open ≡ true
    pub lhs_rest : lhs.IsRest xs s.lhs
    pub rhs_rest : rhs.IsRest ys s.rhs

  pub record IsOver (s : Join L R) : Type 0 where
    pub is_open : s.iter_open ≡ true
    pub lhs_done : lhs.IsDone s.lhs
    pub rhs_closed : RightClosed s.rhs

  -- The pairs that are ahead.
  unfoldable pub count : List Bytes → List Bytes → ℕ
  count [] ys = length ys
  count (x ∷ xs) ys = let more = count xs ys in length (r ∷ rs) + more

  -- How `next_pair` ends when these pairs are ahead.
  unfoldable pub Gives : List Bytes → Bytes → Option (Join L R × Bytes × ℤ) → Type 0
  Gives [] t o = (u : Join L R) × (o ≡ some (u, t, negsuc 408)) × IsOver u
  Gives (z ∷ zs) t o =
      (u : Join L R) × (xs : List Bytes) × (ys : List Bytes) × (o ≡ some (u, z, pos 0))
      × IsAhead xs ys u
      × (count xs ys < p.fuel)
      × (zs ≡ row f p u.left ys ++ joined f p xs (r ∷ rs))

  advance_right :
      (xs ys : List Bytes) (y : Bytes) (s : Join L R)
      → IsAhead xs (y ∷ ys) s
      → (u : Join L R) × (advance f p lhs_it rhs_it s ≡ some (u, true, pos 0))
        × IsAhead xs ys u
        × (u.left ≡ s.left)
        × (u.right ≡ y)
  unfolding advance
  advance_right xs ys y s ahead =
      let (b, next, rest) = rhs.next s.rhs s.right y ys ahead.rhs_rest in
      (
        record s { rhs = b; right = y },
        rw (next, advance, rhs.eof_ne) refl,
        record { is_open = ahead.is_open; lhs_rest = ahead.lhs_rest; rhs_rest = rest },
        refl,
        refl,
      )

  advance_wrap :
      (xs : List Bytes) (x : Bytes) (s : Join L R)
      → IsAhead (x ∷ xs) [] s
      → (u : Join L R) × (advance f p lhs_it rhs_it s ≡ some (u, true, pos 0))
        × IsAhead xs rs u
        × (u.left ≡ x)
        × (u.right ≡ r)
  unfolding advance advance_left reopen
  advance_wrap xs x s ahead =
      let (a, q, end, done) = rhs.ended s.rhs s.right ahead.rhs_rest in
      let (shut, shut') = rhs.closed_done a done in
      let (c, next, rest) = lhs.next s.lhs s.left x xs ahead.lhs_rest in
      let (d, begin, first) = rhs.opened ((rhs_it.close a).0) shut' in
      let (e, get, rest') = rhs.next d q r rs first in
      (
        record s { lhs = c; rhs = e; left = x; right = r },
        rw (end, advance, rhs.eof_eq, shut, advance_left, next, lhs.eof_ne, reopen, begin, get)
            refl,
        record { is_open = ahead.is_open; lhs_rest = rest; rhs_rest = rest' },
        refl,
        refl,
      )

  advance_end :
      (s : Join L R)
      → IsAhead [] [] s
      → (u : Join L R) × (advance f p lhs_it rhs_it s ≡ some (u, false, negsuc 408)) × IsOver u
  unfolding advance advance_left
  advance_end s ahead =
      let (a, q, end, done) = rhs.ended s.rhs s.right ahead.rhs_rest in
      let (shut, shut') = rhs.closed_done a done in
      let (c, v, end', done') = lhs.ended s.lhs s.left ahead.lhs_rest in
      (
        record s { lhs = c; rhs = (rhs_it.close a).0; left = v; right = q },
        rw (end, advance, rhs.eof_eq, shut, advance_left, end', lhs.eof_eq) refl,
        record { is_open = ahead.is_open; lhs_done = done'; rhs_closed = shut' },
      )

  next_pair_end :
      (n : ℕ) (t : Bytes) (s : Join L R)
      → IsAhead [] [] s
      → Gives [] t (next_pair f p lhs_it rhs_it (suc n) t s)
  unfolding next_pair Gives
  next_pair_end n t s ahead =
      let (u, e, over) = advance_end s ahead in rw (e, next_pair) (u, refl, over)

  -- A round of the loop: the pair that `advance` reads is the next one, or is passed over.
  next_pair_round :
      (n : ℕ) (xs ys : List Bytes) (t x y : Bytes) (s u : Join L R)
      → advance f p lhs_it rhs_it s ≡ some (u, true, pos 0)
      → IsAhead xs ys u
      → u.left ≡ x
      → u.right ≡ y
      → count xs ys < p.fuel
      → Gives (row f p u.left ys ++ joined f p xs (r ∷ rs)) t (next_pair f p lhs_it rhs_it n t u)
      → Gives
          (row f p x (y ∷ ys) ++ joined f p xs (r ∷ rs))
          t
          (next_pair f p lhs_it rhs_it (suc n) t s)
  unfolding next_pair row Gives
  next_pair_round n xs ys t x y s u e ahead is_left is_right less rest =
      subst₂
        (λ a b.
          Gives (row f p a (b ∷ ys) ++ joined f p xs (r ∷ rs)) t
            (next_pair f p lhs_it rhs_it (suc n) t s))
        is_left is_right
        (elim (Bool-cases (passes f p.r_attrs p.o_filters u.left u.right)) [
          | inl y' ↦ rw (e, next_pair, y') (u, xs, ys, refl, ahead, less, refl)
          | inr n' ↦ rw (e, next_pair, n') rest
        ])

  pub count_cons :
      (xs : List Bytes) (y : Bytes) (ys : List Bytes) → count xs (y ∷ ys) ≡ suc (count xs ys)
  unfolding count
  count_cons [] y ys = refl
  count_cons (x ∷ xs) y ys = omega (arith, count_cons xs y ys)

  pub count_none : (xs : List Bytes) → count xs [] ≡ length xs * length (r ∷ rs)
  unfolding count
  count_none [] = omega arith
  count_none (x ∷ xs) = omega (arith, count_none xs, suc-mul (length xs) (length (r ∷ rs)))

  pub count_left : (xs : List Bytes) (x : Bytes) → count (x ∷ xs) [] ≡ suc (count xs rs)
  unfolding count
  count_left [] x = omega arith
  count_left (y ∷ xs) x = omega (arith, count_left xs y)

  -- With more fuel than pairs ahead the loop stops: at the next pair that passes, or at the end.
  pub next_pair_lem :
      (n : ℕ) (xs ys : List Bytes) (t : Bytes) (s : Join L R)
      → count xs ys < n
      → count xs ys < p.fuel
      → IsAhead xs ys s
      → Gives (row f p s.left ys ++ joined f p xs (r ∷ rs)) t (next_pair f p lhs_it rhs_it n t s)
  unfolding joined row
  next_pair_lem zero xs ys t s less bound ahead = elim less [ ]
  next_pair_lem (suc n) [] [] t s less bound ahead = next_pair_end n t s ahead
  next_pair_lem (suc n) (x ∷ xs) [] t s less bound ahead =
      let (u, e, ahead', is_left, is_right) = advance_wrap xs x s ahead in
      let one = count_left xs x in
      let rest = next_pair_lem n xs rs t u (omega arith) (omega arith) ahead' in
      next_pair_round n xs rs t x r s u e ahead' is_left is_right (omega arith) rest
  next_pair_lem (suc n) xs (y ∷ ys) t s less bound ahead =
      let (u, e, ahead', is_left, is_right) = advance_right xs ys y s ahead in
      let one = count_cons xs y ys in
      let rest = next_pair_lem n xs ys t u (omega arith) (omega arith) ahead' in
      next_pair_round n xs ys t s.left y s u e ahead' is_left is_right (omega arith) rest
