-- ===== src/Operator/Sort.antt =====
-- `Sort` of src/sort.h, and `TupleCmp` of src/iterator.h.
pub mod Order
pub mod Keys
pub mod Output
use redbase.Base.{
  ℕ, zero, suc, Bool, true, false, Option, none, some, if◌then◌else◌, List, [], ◌∷◌, ◌||◌, ◌+ℤ◌,
  ltb_ℤ, ℤ, pos, negsuc, eqb_ℤ,
}
use redbase.Bytes.{Bytes, Floats, offset}
use redbase.Operator.{DataAttrInfo, Name, tuple_length, Iterator}
use redbase.Predicate.{Predicate, eval}
use redbase.Record.File.{not_open}
use redbase.Record.Scan.{handle_open}
use redbase.Types.{AttrType, lt_op}

-- What a sort keeps from its construction on. The comparison is the ascending one for both orders, since
-- the initialiser of `cmp` reads the member `desc` before the body sets it. `fuel` bounds the loop of
-- `Open`.
pub record SortPlan : Type 0 where
  pub key_type : AttrType
  pub key_length : ℕ
  pub key_offset : ℕ
  pub desc : Bool
  pub fuel : ℕ

-- The name of the last attribute at an offset, empty if there is none.
unfoldable pub name_at : ℤ → List DataAttrInfo → Name
name_at k [] = []
name_at k (a ∷ attrs) =
    let rest = name_at k attrs in
    elim rest [ [] ↦ if eqb_ℤ a.offset k then a.attr_name else [] | c ∷ cs ↦ c ∷ cs ]

-- The `status` of the constructor for a key of this length at this offset.
unfoldable pub sort_status : List DataAttrInfo → ℤ → ℤ → ℤ
unfolding name_at tuple_length ◌+ℤ◌
sort_status attrs len k =
    let bad = negsuc 303 in
    if ltb_ℤ len (pos 1) || ltb_ℤ k (pos 0) || ltb_ℤ (pos (tuple_length attrs) +ℤ negsuc 0) k
    then bad
    else elim (name_at k attrs) [ [] ↦ bad | c ∷ cs ↦ pos 0 ]

-- The `operator()` of `TupleCmp`, with `LT_OP`.
unfoldable pub tuple_less : Floats → SortPlan → Bytes → Bytes → Bool
unfolding eval
tuple_less f p l r =
    let pred : Predicate = record {
      attr_type = p.key_type;
      attr_length = p.key_length;
      attr_offset = p.key_offset;
      comp_op = lt_op;
      value = none;
    } in
    eval f pred l (some (offset p.key_offset r)) lt_op

-- `insert` of a multiset: behind the tuples that are not larger.
unfoldable pub insert_tuple : (Bytes → Bytes → Bool) → Bytes → List Bytes → List Bytes
insert_tuple less x [] = x ∷ []
insert_tuple less x (y ∷ ys) =
    let rest = insert_tuple less x ys in if less x y then x ∷ y ∷ ys else y ∷ rest

unfoldable pub reverse_onto : List Bytes → List Bytes → List Bytes
reverse_onto [] acc = acc
reverse_onto (x ∷ xs) acc = reverse_onto xs (x ∷ acc)

-- The input, the multiset in its order, and what `it` and `rit` have ahead.
pub record Sort (I : Type 0) : Type 0 where
  pub lhs : I
  pub set : List Bytes
  pub it : List Bytes
  pub rit : List Bytes
  pub iter_open : Bool

module _ {I : Type 0} where
  -- `it++` and `rit++`; each is at its end or at a tuple.
  unfoldable pub next_sorted :
      Bool → List Bytes → List Bytes → Bytes → Sort I → Option (Sort I × Bytes × ℤ)
  next_sorted is_desc [] rit t s = some (s, t, negsuc 408)
  next_sorted is_desc (x ∷ xs) [] t s = some (s, t, negsuc 408)
  next_sorted is_desc (x ∷ xs) (y ∷ ys) t s =
      some (record s { it = xs; rit = ys }, if is_desc then y else x, pos 0)

module _ {I : Type 0} (f : Floats) (p : SortPlan) (lhs_it : Iterator I) where
  -- The loop of `Open`: every code but the end inserts what the tuple holds.
  unfoldable pub load : ℕ → Bytes → List Bytes → I → Option (I × List Bytes)
  unfolding tuple_less insert_tuple
  load zero t set s = none
  load (suc n) t set s = elim (lhs_it.get_next t s) [
    | none ↦ none
    | some q ↦ elim (eqb_ℤ q.2 lhs_it.eof) [
      | true ↦ some (q.0, set)
      | false ↦ load n q.1 (insert_tuple (tuple_less f p) q.1 set) q.0
    ]
  ]

  unfoldable pub load_set : Sort I → I → Option (Sort I × ℤ)
  unfolding load reverse_onto
  load_set s u = elim (load p.fuel (λ _. 0) s.set u) [
    | none ↦ none
    | some q ↦ some (
      record { lhs = q.0; set = q.1; it = q.1; rit = reverse_onto q.1 []; iter_open = true },
      pos 0,
    )
  ]

  unfoldable pub open_sort : Sort I → Option (Sort I × ℤ)
  unfolding load_set
  open_sort s = elim s.iter_open [
    | true ↦ some (s, handle_open)
    | false ↦ elim (lhs_it.open_iter s.lhs) [
      | none ↦ none
      | some q ↦ elim (eqb_ℤ q.1 (pos 0)) [
        | true ↦ load_set s q.0
        | false ↦ some (record s { lhs = q.0 }, q.1)
      ]
    ]
  ]

  unfoldable pub get_next_sorted : Bytes → Sort I → Option (Sort I × Bytes × ℤ)
  unfolding next_sorted
  get_next_sorted t s = elim s.iter_open [
    | false ↦ some (s, t, not_open)
    | true ↦ next_sorted p.desc s.it s.rit t s
  ]

  unfoldable pub close_sort : Sort I → Sort I × ℤ
  close_sort s = elim s.iter_open [
    | false ↦ (s, not_open)
    | true ↦
        let (l, code) = lhs_it.close s.lhs in
        elim (eqb_ℤ code (pos 0)) [
          | false ↦ (record s { lhs = l }, code)
          | true ↦ (record { lhs = l; set = []; it = []; rit = []; iter_open = false }, pos 0)
        ]
  ]

  abbrev pub sort_iterator : Iterator (Sort I)
  sort_iterator = record {
    attrs = lhs_it.attrs;
    eof = negsuc 408;
    open_iter = open_sort;
    close = close_sort;
    get_next = get_next_sorted;
  }
