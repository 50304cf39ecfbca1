-- ===== src/Operator/Project.antt =====
-- `Projection` of src/projection.h and src/projection.cc.
pub mod Output
use redbase.Base.{
  ℕ, zero, suc, ◌+◌, ltb, Bool, true, false, ◌&&◌, ◌==◌, Option, none, some, if◌then◌else◌, List,
  [], ◌∷◌, ℤ, pos, negsuc, eqb_ℤ,
}
use redbase.Bytes.{Bytes, copy_at}
use redbase.Operator.{
  AggFun, no_f, min_f, max_f, count_f, sum_f, avg_f, DataAttrInfo, Name, same_name, at,
  tuple_length, Iterator,
}

-- `AggRelAttr` of src/parser.h; a name may be null.
pub record AggRelAttr : Type 0 where
  pub func : AggFun
  pub rel_name : Option Name
  pub attr_name : Option Name

-- The number of an enumerator.
abbrev pub fun_number : AggFun → ℕ
fun_number no_f = 0
fun_number min_f = 1
fun_number max_f = 2
fun_number count_f = 3
fun_number sum_f = 4
fun_number avg_f = 5

abbrev pub has_name : Option Name → Name → Bool
has_name none name = false
has_name (some n) name = same_name n name

unfoldable pub is_projected : AggRelAttr → DataAttrInfo → Bool
unfolding same_name
is_projected p a =
    has_name p.rel_name a.rel_name
    && has_name p.attr_name a.attr_name
    && fun_number p.func == fun_number a.func

-- The input's attribute of a projection.
unfoldable pub find_attr : AggRelAttr → List DataAttrInfo → Option DataAttrInfo
unfolding is_projected
find_attr p [] = none
find_attr p (a ∷ attrs) = let rest = find_attr p attrs in if is_projected p a then some a else rest

-- A field of the output: the attribute in the input, and its offset in the output tuple.
pub record Field : Type 0 where
  pub source : DataAttrInfo
  pub target : ℕ

-- The fields of the projections from this offset on, and the status; an attribute that the input does
-- not have ends the loop.
unfoldable pub make_fields : ℕ → List DataAttrInfo → List AggRelAttr → List Field × ℤ
unfolding find_attr
make_fields so_far lattrs [] = ([], pos 0)
make_fields so_far lattrs (p ∷ ps) = elim (find_attr p lattrs) [
  | none ↦ ([], negsuc 306)
  | some a ↦
      let rest = make_fields (so_far + a.attr_length) lattrs ps in
      (record { source = a; target = so_far } ∷ rest.0, rest.1)
]

-- The constructor: without projections it refuses.
unfoldable pub make_projection : List DataAttrInfo → List AggRelAttr → List Field × ℤ
unfolding make_fields
make_projection lattrs [] = ([], negsuc 303)
make_projection lattrs (p ∷ ps) = make_fields 0 lattrs (p ∷ ps)

-- `attrs` of the projection.
unfoldable pub field_attrs : List Field → List DataAttrInfo
field_attrs [] = []
field_attrs (x ∷ xs) =
    let rest = field_attrs xs in
    let a : DataAttrInfo = record x.source { offset = pos x.target } in a ∷ rest

-- The loop of `GetNext` that copies the fields.
unfoldable pub project : List Field → Bytes → Bytes → Bytes
unfolding copy_at at
project [] lbuf buf = buf
project (x ∷ xs) lbuf buf =
    project xs lbuf (copy_at x.target x.source.attr_length (at x.source.offset lbuf) buf)

-- The output tuple is an array of `n` bytes; the model has 0 behind it.
unfoldable pub within : ℕ → Bytes → Bytes
within n buf i = if ltb i n then buf i else 0

module _ {I : Type 0} (it : Iterator I) (fields : List Field) where
  -- The input's tuple is a new one of its length, whose bytes the input writes.
  unfoldable pub get_projected : Bytes → I → Option (I × Bytes × ℤ)
  unfolding project within tuple_length field_attrs
  get_projected t s = elim (it.get_next (λ _. 0) s) [
    | none ↦ none
    | some q ↦ elim (eqb_ℤ q.2 (pos 0)) [
      | true ↦ some (q.0, within (tuple_length (field_attrs fields)) (project fields q.1 t), pos 0)
      | false ↦ some (q.0, t, q.2)
    ]
  ]

  abbrev pub projection : Iterator I
  projection = record {
    attrs = field_attrs fields;
    eof = it.eof;
    open_iter = it.open_iter;
    close = it.close;
    get_next = get_projected;
  }
