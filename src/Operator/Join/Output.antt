-- ===== src/Operator/Join/Output.antt =====
-- The join of src/nested_loop_join.cc as an input of another operator: what it promises of its tuples.
use redbase.Base.{
  ◌*◌, ◌<◌, ◌≡◌, refl, true, false, some, List, [], ◌∷◌, ◌++◌, length, pos, arith, subst, sym,
}
use redbase.Bytes.{Bytes, Floats}
use redbase.Operator.Join.Pairs.{
  row, joined, IsAhead, IsOver, Gives, count, count_none, next_pair_lem, count_left, count_cons,
}
use redbase.Operator.Join.{
  Plan, Join, get_next_pair, open_join, open_rhs, open_children, close_join, join_iterator,
}
use redbase.Operator.Scans.{Scans}
use redbase.Operator.{Iterator}

-- A join that is closed, with closed inputs.
abbrev pub Shut : {L R : Type 0} → (L → Type 0) → (R → Type 0) → Join L R → Type 0
Shut LeftClosed RightClosed s = (s.iter_open ≡ false) × LeftClosed s.lhs × RightClosed s.rhs

module _ {L R : Type 0} {lhs_it : Iterator L} {rhs_it : Iterator R} {l : Bytes} {ls : List Bytes}
    {r : Bytes} {rs : List Bytes} {LeftClosed : L → Type 0} {RightClosed : R → Type 0} (f : Floats)
    (p : Plan) (lhs : Scans lhs_it (l ∷ ls) LeftClosed)
    (rhs : Scans rhs_it (r ∷ rs) RightClosed) where
  abbrev Rest : List Bytes → Join L R → Type 0
  Rest zs s =
      (xs : List Bytes) × (ys : List Bytes) × IsAhead f p lhs rhs xs ys s
      × (count f p lhs rhs xs ys < p.fuel)
      × (row f p s.left ys ++ joined f p xs (r ∷ rs) ≡ zs)

  abbrev Closes : Join L R → Type 0
  Closes s =
      ((close_join f p lhs_it rhs_it s).1 ≡ pos 0)
      × Shut LeftClosed RightClosed ((close_join f p lhs_it rhs_it s).0)

  open_join_lem :
      length (l ∷ ls) * length (r ∷ rs) < p.fuel
      → (s : Join L R) → Shut LeftClosed RightClosed s
      → (u : Join L R) × (open_join f p lhs_it rhs_it s ≡ some (u, pos 0))
        × Rest (joined f p (l ∷ ls) (r ∷ rs)) u
  unfolding open_join open_rhs open_children joined
  open_join_lem enough s (off, shut, shut') =
      let (a, begin, rest) = lhs.opened s.lhs shut in
      let (b, begin', rest') = rhs.opened s.rhs shut' in
      let (c, next, ahead) = lhs.next a s.left l ls rest in
      let all = count_none f p lhs rhs (l ∷ ls) in
      let one = count_left f p lhs rhs ls l in
      let same = count_cons f p lhs rhs ls r rs in
      (
        record s { lhs = c; rhs = b; left = l; iter_open = true },
        rw (off, open_join, begin, open_rhs, begin', open_children, next) refl,
        (
          ls,
          r ∷ rs,
          record { is_open = refl; lhs_rest = ahead; rhs_rest = rest' },
          omega arith,
          refl,
        ),
      )

  get_next_lem :
      (zs : List Bytes) (t : Bytes) (s : Join L R)
      → Rest zs s
      → Gives f p lhs rhs zs t (get_next_pair f p lhs_it rhs_it t s)
  unfolding get_next_pair
  get_next_lem zs t s (xs, ys, ahead, bound, e) =
      subst (λ qs. Gives f p lhs rhs qs t (get_next_pair f p lhs_it rhs_it t s)) e
        (rw (ahead.is_open, get_next_pair)
          (next_pair_lem f p lhs rhs p.fuel xs ys t s bound bound ahead))

  next_join :
      (s : Join L R) (t z : Bytes) (zs : List Bytes)
      → Rest (z ∷ zs) s
      → (u : Join L R) × (get_next_pair f p lhs_it rhs_it t s ≡ some (u, z, pos 0)) × Rest zs u
  unfolding Gives
  next_join s t z zs rest =
      let (u, xs, ys, e, ahead, bound, same) = get_next_lem (z ∷ zs) t s rest in
      (u, e, (xs, ys, ahead, bound, sym same))

  close_over : (s : Join L R) → IsOver f p lhs rhs s → Closes s
  unfolding close_join
  close_over s over =
      let (code, shut) = lhs.closed_done s.lhs over.lhs_done in
      rw (over.is_open, close_join, code)
        (refl, (refl, shut, rhs.closed_twice s.rhs over.rhs_closed))

  close_ahead : (s : Join L R) (zs : List Bytes) → Rest zs s → Closes s
  unfolding close_join
  close_ahead s zs (xs, ys, ahead, bound, e) =
      let (code, shut) = lhs.closed s.lhs xs ahead.lhs_rest in
      let (code', shut') = rhs.closed s.rhs ys ahead.rhs_rest in
      rw (ahead.is_open, close_join, code) (refl, (refl, shut, shut'))

  -- On two inputs that are not empty, with more fuel than they have pairs, the join is an iterator of
  -- the pairs that pass all filters, in the order of the left tuples and for each of the right ones,
  -- each time that it is opened.
  pub join_iterator-Scans :
      length (l ∷ ls) * length (r ∷ rs) < p.fuel
      → Scans
          (join_iterator f p lhs_it rhs_it)
          (joined f p (l ∷ ls) (r ∷ rs))
          (Shut LeftClosed RightClosed)
  unfolding Gives close_join
  join_iterator-Scans enough = record {
    IsDone = IsOver f p lhs rhs;
    IsRest = Rest;
    eof_ne = refl;
    eof_eq = refl;
    opened = open_join_lem enough;
    next = next_join;
    ended = λ s t rest. let (u, e, over) = get_next_lem [] t s rest in (u, t, e, over);
    closed = close_ahead;
    closed_done = close_over;
    closed_twice = λ s shut. rw (shut.0, close_join) shut;
  }
