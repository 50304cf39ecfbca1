-- ===== src/Operator/Scans.antt =====
-- What the operators of src/iterator.h promise each other, and what `PrintIterator` prints of an
-- operator that keeps it.
use redbase.Base.{
  ℕ, zero, suc, ◌<◌, ◌≡◌, refl, true, false, List, [], ◌∷◌, length, pos, eqb_ℤ, some, arith,
}
use redbase.Bytes.{Bytes}
use redbase.Operator.{Iterator, print_tuples, print_iterator}

-- From a closed state on, the iterator gives the tuples `all` each time that it is opened, in this order, then its own
-- end code. It can be closed at any time, and to close it once more leaves it closed.
pub record Scans {I : Type 0} (it : Iterator I) (all : List Bytes) (IsClosed : I → Type 0)
    : Type 1 where
  pub IsDone : I → Type 0
  -- Open, with these tuples ahead.
  pub IsRest : List Bytes → I → Type 0
  pub eof_ne : eqb_ℤ (pos 0) it.eof ≡ false
  pub eof_eq : eqb_ℤ it.eof it.eof ≡ true
  pub opened : (s : I) → IsClosed s → (u : I) × (it.open_iter s ≡ some (u, pos 0)) × IsRest all u
  pub next :
      (s : I) (t x : Bytes) (xs : List Bytes)
      → IsRest (x ∷ xs) s
      → (u : I) × (it.get_next t s ≡ some (u, x, pos 0)) × IsRest xs u
  pub ended :
      (s : I) (t : Bytes)
      → IsRest [] s
      → (u : I) × (r : Bytes) × (it.get_next t s ≡ some (u, r, it.eof)) × IsDone u
  pub closed :
      (s : I) (xs : List Bytes) → IsRest xs s → ((it.close s).1 ≡ pos 0) × IsClosed ((it.close s).0)
  pub closed_done : (s : I) → IsDone s → ((it.close s).1 ≡ pos 0) × IsClosed ((it.close s).0)
  pub closed_twice : (s : I) → IsClosed s → IsClosed ((it.close s).0)

module _ {I : Type 0} {it : Iterator I} {all : List Bytes} {IsClosed : I → Type 0}
    (scans : Scans it all IsClosed) where
  pub print_tuples_lem :
      (fuel : ℕ) (xs : List Bytes) (t : Bytes) (s : I)
      → length xs < fuel
      → scans.IsRest xs s
      → (u : I) × (print_tuples it fuel t s ≡ some (u, xs, pos 0)) × scans.IsDone u
  unfolding print_tuples
  print_tuples_lem zero xs t s less rest = elim less [ ]
  print_tuples_lem (suc fuel) [] t s less rest =
      let (u, r, end, done) = scans.ended s t rest in
      (u, rw (end, print_tuples, scans.eof_eq) refl, done)
  print_tuples_lem (suc fuel) (x ∷ xs) t s less rest =
      let (u, next, rest') = scans.next s t x xs rest in
      let (v, e, done) = print_tuples_lem fuel xs x u (omega arith) rest' in
      (v, rw (next, print_tuples, scans.eof_ne, e) refl, done)

  -- With more fuel than there are tuples, `PrintIterator` on a closed iterator returns 0, prints
  -- every tuple of it in order, once, and leaves it closed.
  pub print_iterator-prints :
      (fuel : ℕ) (t : Bytes) (s : I)
      → length all < fuel
      → IsClosed s
      → (u : I) × (print_iterator it fuel t s ≡ some (u, all, pos 0)) × IsClosed u
  unfolding print_iterator
  print_iterator-prints fuel t s less shut =
      let (a, begin, rest) = scans.opened s shut in
      let (b, print, done) = print_tuples_lem fuel all t a less rest in
      let (close, shut') = scans.closed_done b done in
      ((it.close b).0, rw (begin, print_iterator, print, close) refl, shut')
