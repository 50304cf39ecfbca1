-- ===== src/Operator/Join.antt =====
-- `NestedLoopJoin` of src/nested_loop_join.cc.
pub mod Pairs
pub mod Output
use redbase.Base.{
  ℕ, zero, suc, ◌+◌, Bool, true, false, Option, none, some, if◌then◌else◌, List, [], ◌∷◌, ◌++◌, map,
  not, ◌||◌, ℤ, pos, negsuc, ◌+ℤ◌, eqb_ℤ,
}
use redbase.Bytes.{Bytes, Floats, copy_at}
use redbase.Operator.{DataAttrInfo, Name, same_name, tuple_length, get, Iterator}
use redbase.Predicate.{Predicate, eval}
use redbase.Types.{AttrType, CompOp}

-- What the join reads of a `Condition` whose right side is an attribute.
pub record Condition : Type 0 where
  pub lhs_attr : Name
  pub op : CompOp
  pub rhs_attr : Name

-- An entry of `oFilters`, `lKeys` and `rKeys`.
pub record Filter : Type 0 where
  pub op : CompOp
  pub l_key : DataAttrInfo
  pub r_key : DataAttrInfo

-- The attributes of the pairs: those of the right side stand behind the bytes of the left.
unfoldable pub join_attrs : List DataAttrInfo → List DataAttrInfo → List DataAttrInfo
unfolding tuple_length
join_attrs lattrs rattrs =
    let len = tuple_length lattrs in
    lattrs ++ map {A = DataAttrInfo} (λ a. record a { offset = a.offset +ℤ pos len }) rattrs

-- The loop goes on behind a match, so the last attribute of the name counts.
unfoldable pub last_named : List DataAttrInfo → Name → Option DataAttrInfo
unfolding same_name
last_named [] name = none
last_named (a ∷ attrs) name =
    let rest = last_named attrs name in
    elim rest [ some b ↦ some b | none ↦ if same_name a.attr_name name then some a else none ]

find_both :
    List DataAttrInfo → List DataAttrInfo → Name → Name → Option (DataAttrInfo × DataAttrInfo)
unfolding last_named
find_both lattrs rattrs l r = elim (last_named lattrs l) [
  | none ↦ none
  | some a ↦ elim (last_named rattrs r) [ none ↦ none | some b ↦ some (a, b) ]
]

-- The keys of a condition: as they stand, or reversed.
unfoldable pub find_keys :
    List DataAttrInfo → List DataAttrInfo → Condition → Option (DataAttrInfo × DataAttrInfo)
unfolding find_both
find_keys lattrs rattrs c = elim (find_both lattrs rattrs c.lhs_attr c.rhs_attr) [
  | some keys ↦ some keys
  | none ↦ find_both lattrs rattrs c.rhs_attr c.lhs_attr
]

abbrev pub same_type : AttrType → AttrType → Bool
same_type AttrType.int AttrType.int = true
same_type AttrType.float AttrType.float = true
same_type AttrType.string AttrType.string = true
same_type a b = false

-- One round of the constructor's loop: a filter, or the code that it stops with.
pub data Checked : Type 0 where
  good : Filter → Checked
  refused : ℤ → Checked

check_keys : CompOp → DataAttrInfo → DataAttrInfo → Checked
check_keys op l r =
    if eqb_ℤ r.offset (negsuc 0) || eqb_ℤ l.offset (negsuc 0)
    then refused (negsuc 400)
    else if not (same_type r.attr_type l.attr_type)
    then refused (negsuc 406)
    else good (record { op = op; l_key = l; r_key = r })

check_filter : List DataAttrInfo → List DataAttrInfo → Condition → Checked
unfolding find_keys check_keys
check_filter lattrs rattrs c = elim (find_keys lattrs rattrs c) [
  | none ↦ refused (negsuc 400)
  | some keys ↦ check_keys c.op keys.0 keys.1
]

-- The filters of the conditions up to the first that is refused, and the `status`.
unfoldable pub make_filters :
    List DataAttrInfo → List DataAttrInfo → List Condition → List Filter × ℤ
unfolding check_filter
make_filters lattrs rattrs [] = ([], pos 0)
make_filters lattrs rattrs (c ∷ cs) =
    let rest = make_filters lattrs rattrs cs in
    elim (check_filter lattrs rattrs c) [
      | refused code ↦ ([], code)
      | good f ↦ (f ∷ rest.0, rest.1)
    ]

-- What a join keeps from its construction on.
pub record Plan : Type 0 where
  pub l_attrs : List DataAttrInfo
  pub r_attrs : List DataAttrInfo
  pub o_filters : List Filter
  -- A bound on the rounds of `GetNext`'s loop.
  pub fuel : ℕ

-- The two inputs, the tuples that were read last of them, and `bIterOpen`.
pub record Join (L R : Type 0) : Type 0 where
  pub lhs : L
  pub rhs : R
  pub left : Bytes
  pub right : Bytes
  pub iter_open : Bool

unfoldable pub make_join :
    {L R : Type 0} → Iterator L → Iterator R → List Condition → ℕ → L → R → Plan × Join L R × ℤ
unfolding make_filters
make_join lhs_it rhs_it conds fuel l r =
    let (filters, status) = make_filters lhs_it.attrs rhs_it.attrs conds in
    (
      record { l_attrs = lhs_it.attrs; r_attrs = rhs_it.attrs; o_filters = filters; fuel = fuel },
      record { lhs = l; rhs = r; left = λ _. 0; right = λ _. 0; iter_open = false },
      status,
    )

-- An attribute's offset in the predicate of `EvalJoin`; the constructor has refused -1.
abbrev pub start : ℤ → ℕ
start (pos n) = n
start (negsuc n) = 0

-- The conditions of `EvalJoin` on two tuples.
unfoldable pub passes : Floats → List DataAttrInfo → List Filter → Bytes → Bytes → Bool
unfolding get eval
passes f rattrs [] l r = true
passes f rattrs (c ∷ cs) l r =
    let rest = passes f rattrs cs l r in
    let p : Predicate = record {
      attr_type = c.l_key.attr_type;
      attr_length = c.l_key.attr_length;
      attr_offset = start c.l_key.offset;
      comp_op = c.op;
      value = none;
    } in
    if eval f p l (get rattrs c.r_key.attr_name r) c.op then rest else false

-- The bytes that `EvalJoin` writes: the output tuple has the join's own length, and is cleared first.
unfoldable pub pair : Plan → Bytes → Bytes → Bytes
unfolding tuple_length copy_at
pair p l r =
    let len = tuple_length p.l_attrs in
    copy_at len (tuple_length p.r_attrs) r (copy_at 0 len l (λ _. 0))

module _ {L R : Type 0} (f : Floats) (p : Plan) (lhs_it : Iterator L) (rhs_it : Iterator R) where
  -- A join on the attributes of two inputs is valid from its construction on, so `IsValid` is 0.
  unfoldable pub open_children : Join L R → L → R → Option (Join L R × ℤ)
  open_children s l r = elim (lhs_it.get_next s.left l) [
    | none ↦ none
    | some q ↦ some (record s { lhs = q.0; rhs = r; left = q.1; iter_open = true }, pos 0)
  ]

  unfoldable pub open_rhs : Join L R → L → Option (Join L R × ℤ)
  unfolding open_children
  open_rhs s l = elim (rhs_it.open_iter s.rhs) [
    | none ↦ none
    | some q ↦ elim (eqb_ℤ q.1 (pos 0)) [
      | true ↦ open_children s l q.0
      | false ↦ some (record s { lhs = l; rhs = q.0 }, q.1)
    ]
  ]

  unfoldable pub open_join : Join L R → Option (Join L R × ℤ)
  unfolding open_rhs
  open_join s = elim s.iter_open [
    | true ↦ some (s, negsuc 401)
    | false ↦ elim (lhs_it.open_iter s.lhs) [
      | none ↦ none
      | some q ↦ elim (eqb_ℤ q.1 (pos 0)) [
        | true ↦ open_rhs s q.0
        | false ↦ some (record s { lhs = q.0 }, q.1)
      ]
    ]
  ]

  -- The code of the right input is not looked at: it may be closed already.
  unfoldable pub close_join : Join L R → Join L R × ℤ
  close_join s = elim s.iter_open [
    | false ↦ (s, negsuc 405)
    | true ↦
        let (l, code) = lhs_it.close s.lhs in
        elim (eqb_ℤ code (pos 0)) [
          | false ↦ (record s { lhs = l }, code)
          | true ↦ (
            record {
              lhs = l;
              rhs = (rhs_it.close s.rhs).0;
              left = λ _. 0;
              right = λ _. 0;
              iter_open = false;
            },
            pos 0,
          )
        ]
  ]

  -- The next tuple of the left input, and the first of the right input for it. The end of the left
  -- input ends the join; its other codes and the one of `Open` are not looked at.
  reopen : Join L R → R → Option (Join L R × ℤ)
  reopen s r = elim (rhs_it.open_iter r) [
    | none ↦ none
    | some o ↦ elim (rhs_it.get_next s.right o.0) [
      | none ↦ none
      | some q ↦ some (record s { rhs = q.0; right = q.1 }, q.2)
    ]
  ]

  -- What a round of the loop has before `EvalJoin`: `true` and the code of the last call, or `false`
  -- and the code that `GetNext` returns.
  unfoldable pub advance_left : Join L R → Option (Join L R × Bool × ℤ)
  unfolding reopen
  advance_left s = elim (lhs_it.get_next s.left s.lhs) [
    | none ↦ none
    | some q ↦
        let s' = record s { lhs = q.0; left = q.1 } in
        elim (eqb_ℤ q.2 lhs_it.eof) [
          | true ↦ some (s', false, negsuc 408)
          | false ↦ elim (reopen s' s'.rhs) [ none ↦ none | some o ↦ some (o.0, true, o.1) ]
        ]
  ]

  unfoldable pub advance : Join L R → Option (Join L R × Bool × ℤ)
  unfolding advance_left
  advance s = elim (rhs_it.get_next s.right s.rhs) [
    | none ↦ none
    | some q ↦ elim (eqb_ℤ q.2 rhs_it.eof) [
      | false ↦ some (record s { rhs = q.0; right = q.1 }, true, q.2)
      | true ↦
          let (r, code) = rhs_it.close q.0 in
          let s' = record s { rhs = r; right = q.1 } in
          elim (eqb_ℤ code (pos 0)) [ true ↦ advance_left s' | false ↦ some (s', false, code) ]
    ]
  ]

  -- The loop up to a pair that passes.
  unfoldable pub next_pair : ℕ → Bytes → Join L R → Option (Join L R × Bytes × ℤ)
  unfolding advance passes
  next_pair zero t s = none
  next_pair (suc n) t s = elim (advance s) [
    | none ↦ none
    | some q ↦ elim q.1 [
      | false ↦ some (q.0, t, q.2)
      | true ↦ elim (passes f p.r_attrs p.o_filters q.0.left q.0.right) [
        | true ↦ some (q.0, pair p q.0.left q.0.right, q.2)
        | false ↦ next_pair n t q.0
      ]
    ]
  ]

  unfoldable pub get_next_pair : Bytes → Join L R → Option (Join L R × Bytes × ℤ)
  unfolding next_pair
  get_next_pair t s = elim s.iter_open [
    | false ↦ some (s, t, negsuc 405)
    | true ↦ next_pair p.fuel t s
  ]

  -- The join as an input of another operator.
  abbrev pub join_iterator : Iterator (Join L R)
  join_iterator = record {
    attrs = join_attrs p.l_attrs p.r_attrs;
    eof = negsuc 408;
    open_iter = open_join;
    close = close_join;
    get_next = get_next_pair;
  }
