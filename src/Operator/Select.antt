-- ===== src/Operator/Select.antt =====
-- A query on two relations as `QL_Manager::Select` of src/ql_manager.cc builds it of nested loops: the
-- projection of a join, printed to its end.
use redbase.Base.{ℕ, suc, ◌*◌, ◌<◌, ◌≡◌, refl, ap, some, List, [], ◌∷◌, length, map, pos}
use redbase.Bytes.{Bytes, Floats}
use redbase.Operator.Join.Output.{Shut, join_iterator-Scans}
use redbase.Operator.Join.Pairs.{joined}
use redbase.Operator.Join.{Plan, Join, join_attrs, join_iterator}
use redbase.Operator.Project.Output.{packed, make_projection-IsPacked, projection-Scans}
use redbase.Operator.Project.{AggRelAttr, make_projection, projection}
use redbase.Operator.Scans.{Scans, print_iterator-prints}
use redbase.Operator.{Iterator, print_iterator}

length-map : (g : Bytes → Bytes) (xs : List Bytes) → length (map g xs) ≡ length xs
length-map g [] = refl
length-map g (x ∷ xs) = ap suc (length-map g xs)

module _ {L R : Type 0} {lhs_it : Iterator L} {rhs_it : Iterator R} {l : Bytes} {ls : List Bytes}
    {r : Bytes} {rs : List Bytes} {LeftClosed : L → Type 0} {RightClosed : R → Type 0} (f : Floats)
    (p : Plan) (ps : List AggRelAttr) (lhs : Scans lhs_it (l ∷ ls) LeftClosed)
    (rhs : Scans rhs_it (r ∷ rs) RightClosed) where
  abbrev pub query : Iterator (Join L R)
  query =
      projection (join_iterator f p lhs_it rhs_it)
        ((make_projection (join_attrs p.l_attrs p.r_attrs) ps).0)

  -- A closed query on two inputs that are not empty, with more fuel for the join than there are pairs,
  -- and more for the printing than there are results, prints the projections of the pairs that pass,
  -- each once and in order, returns 0, and can then be run again.
  pub print_iterator-query :
      length (l ∷ ls) * length (r ∷ rs) < p.fuel
      → (fuel : ℕ) (t : Bytes) (s : Join L R) → length (joined f p (l ∷ ls) (r ∷ rs)) < fuel
      → Shut LeftClosed RightClosed s
      → (u : Join L R) × (print_iterator query fuel t s
          ≡ some (
            u,
            map
                (packed ((make_projection (join_attrs p.l_attrs p.r_attrs) ps).0))
                (joined f p (l ∷ ls) (r ∷ rs)),
            pos 0,
          ))
        × Shut LeftClosed RightClosed u
  print_iterator-query enough fuel t s less shut =
      let fields = (make_projection (join_attrs p.l_attrs p.r_attrs) ps).0 in
      let rows = joined f p (l ∷ ls) (r ∷ rs) in
      let scans = join_iterator-Scans f p lhs rhs enough in
      print_iterator-prints
        (projection-Scans fields scans
          (make_projection-IsPacked (join_attrs p.l_attrs p.r_attrs) ps))
        fuel t s (rw (length-map (packed fields) rows) less) shut
