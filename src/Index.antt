-- ===== src/Index.antt =====
-- `IX_IndexHandle` of src/ix_indexhandle.h and src/ix_indexhandle.cc: its members, its calls of the
-- paged file, and the nodes that it fetches. A node object stands for the page that it points into:
-- a pointer to one is the number of the page, and `nodes` holds what the objects and the page keep.
-- The operations of the paged file come as an instance of `Pages`. A pointer that is null is `none`,
-- and what the code would do through it is `fault`.
pub mod Path
pub mod Insert
pub mod Delete
pub mod Open
pub mod Requests
pub mod Served
pub mod Tree
pub mod Child
pub mod Reach
pub mod Search
pub mod Apart
pub mod Plus
pub mod Route
pub mod Grown
pub mod Leaf
pub mod Rise
pub mod Raise
pub mod Insertion
pub mod Entry
pub mod Adds
pub mod Exists
pub mod Files
use redbase.Base.{
  ℕ, zero, suc, ◌+◌, ◌-◌, Bool, true, false, not, ◌&&◌, ◌||◌, Option, none, some, if◌then◌else◌,
  update, ◌==◌, ℤ, pos, negsuc, ◌+ℤ◌, pos_part, neg_part, sub_ℕ, ltb_ℤ, eqb_ℤ,
}
use redbase.Btree.Node.{Node, new_node, get_num_keys, find_key, largest_key}
use redbase.Paged.Outcome.{Outcome, ok, err, fault, Op, ◌>>=◌, ◌>>◌, pure, raise, modify}
use redbase.Record.Rid.{Rid, null_rid}

-- What the index calls of `PF_FileHandle`; `alloc` answers with the number of the new page.
pub record Pages (S : Type 0) : Type 0 where
  pub get : ℤ → Op S (Unit {0})
  pub mark : ℤ → Op S (Unit {0})
  pub unpin : ℤ → Op S (Unit {0})
  pub alloc : Op S ℤ
  pub dispose : ℤ → Op S (Unit {0})
  pub force : Op S (Unit {0})

-- `IX_FileHdr` without the type of the attribute, which is the type of the keys.
pub record IxHdr : Type 0 where
  pub num_pages : ℤ
  pub page_size : ℕ
  pub root_page : ℤ
  pub pair_size : ℤ
  pub order : ℕ
  pub height : ℕ
  pub attr_length : ℕ

-- The members of the handle. `stored_hdr` is the header on page 0, `has_handle` and `has_path` tell
-- that the pointers `pfHandle` and `path` are not null.
pub record Index (K S : Type 0) : Type 0 where
  pub pages : S
  pub nodes : ℤ → Node K
  pub stored_hdr : IxHdr
  pub hdr : IxHdr
  pub file_open : Bool
  pub has_handle : Bool
  pub hdr_changed : Bool
  pub root : Option ℤ
  pub has_path : Bool
  pub path : ℕ → Option ℤ
  pub path_pos : ℕ → ℤ
  pub tree_largest : K

-- The codes of src/ix_error.h that are used here.
abbrev pub key_not_found : ℤ
key_not_found = pos 201

abbrev pub entry_exists : ℤ
entry_exists = pos 203

abbrev pub no_such_entry : ℤ
no_such_entry = pos 204

abbrev pub ix_pf : ℤ
ix_pf = negsuc 201

abbrev pub bad_ix_page : ℤ
bad_ix_page = negsuc 202

abbrev pub handle_open : ℤ
handle_open = negsuc 204

abbrev pub bad_open : ℤ
bad_open = negsuc 205

abbrev pub bad_key : ℤ
bad_key = negsuc 208

-- A call whose code is looked at in another way: not at all, only when it is below 0, or to answer
-- with a code of its own.
abbrev pub ignoring : {S A : Type 0} → Op S A → Op S (Unit {0})
ignoring m s = elim (m s) [ ok t _ ↦ ok t tt | err t c ↦ ok t tt | fault ↦ fault ]

abbrev pub if_below_0 : {S A : Type 0} → Op S A → Op S (Unit {0})
if_below_0 m s = elim (m s) [
  | ok t _ ↦ ok t tt
  | err t c ↦ if ltb_ℤ c (pos 0) then err t c else ok t tt
  | fault ↦ fault
]

abbrev pub with_code : {S A : Type 0} → ℤ → Op S A → Op S A
with_code c m s = elim (m s) [ ok t a ↦ ok t a | err t _ ↦ err t c | fault ↦ fault ]

-- A function that returns a null pointer for every error.
abbrev pub or_null : {S A : Type 0} → Op S A → Op S (Option A)
or_null m s = elim (m s) [ ok t a ↦ ok t (some a) | err t _ ↦ ok t none | fault ↦ fault ]

-- What is read through a pointer.
abbrev pub deref : {S A : Type 0} → Option A → Op S A
deref none s = fault
deref (some a) s = ok s a

abbrev pub is_null : {A : Type 0} → Option A → Bool
is_null none = true
is_null (some _) = false

abbrev pub put_node : {K : Type 0} → ℤ → Node K → (ℤ → Node K) → ℤ → Node K
put_node p n nodes q = if eqb_ℤ q p then n else nodes q

module _ {K S : Type 0} where
  abbrev pub on_pages : {A : Type 0} → Op S A → Op (Index K S) A
  on_pages m s = elim (m s.pages) [
    | ok t a ↦ ok (record s { pages = t }) a
    | err t c ↦ err (record s { pages = t }) c
    | fault ↦ fault
  ]

  abbrev pub set_node : ℤ → Node K → Index K S → Index K S
  set_node p n s = record s { nodes = put_node p n s.nodes }

  abbrev pub set_hdr : (IxHdr → IxHdr) → Index K S → Index K S
  set_hdr f s = record s { hdr = f s.hdr }

  unfoldable pub is_valid : Index K S → ℤ
  is_valid s =
      if s.has_handle
        && (if s.hdr.height == 0
            then true
            else (ltb_ℤ (pos 0) s.hdr.root_page
                && not (ltb_ℤ s.hdr.num_pages (pos (s.hdr.height + 1)))
                && not (is_null s.root)
                && s.has_path))
      then pos 0
      else bad_ix_page

  abbrev pub when_index_valid : {A : Type 0} → Op (Index K S) A → Op (Index K S) A
  when_index_valid m s = if eqb_ℤ (is_valid s) (pos 0) then m s else err s (is_valid s)

  -- `SetHeight`: a fresh path whose first node is the root.
  unfoldable pub set_height : ℕ → Index K S → Index K S
  set_height h s = record s {
    hdr = record s.hdr { height = h };
    has_path = true;
    path = update (λ i. none) 0 s.root;
    path_pos = λ i. negsuc 0;
  }

module _ {K S : Type 0} ⦃pf : Pages S⦄ where
  -- `Pin` and `UnPin`
  unfoldable pub pin_page : ℤ → Op (Index K S) (Unit {0})
  pin_page p = on_pages (pf.get p)

  unfoldable pub un_pin : ℤ → Op (Index K S) (Unit {0})
  un_pin p = on_pages (pf.unpin p)

  -- `GetThisPage`; where the page cannot be marked it returns `NULL`, which is the code 0.
  unfoldable pub get_index_page : ℤ → Op (Index K S) (Unit {0})
  get_index_page p = on_pages (pf.get p) >> (λ s. elim (on_pages (pf.mark p) s) [
    | ok t _ ↦ on_pages (pf.unpin p) t
    | err t _ ↦ ok t tt
    | fault ↦ fault
  ])

  unfoldable pub get_new_page : Op (Index K S) ℤ
  unfolding is_valid ◌+ℤ◌
  get_new_page = when_index_valid do
    p ← on_pages pf.alloc
    on_pages (pf.unpin p)
    modify (set_hdr (λ h. record h { num_pages = h.num_pages +ℤ pos 1 }))
    (λ s. if ltb_ℤ (pos 1) s.hdr.num_pages then ok s tt else fault)
    modify (λ s. record s { hdr_changed = true })
    pure p

  unfoldable pub dispose_index_page : ℤ → Op (Index K S) (Unit {0})
  unfolding is_valid ◌+ℤ◌
  dispose_index_page p = when_index_valid do
    on_pages (pf.dispose p)
    modify (set_hdr (λ h. record h { num_pages = h.num_pages +ℤ negsuc 0 }))
    (λ s. if ltb_ℤ (pos 0) s.hdr.num_pages then ok s tt else fault)
    modify (λ s. record s { hdr_changed = true })

  -- `FetchNode`: the node object on a page of the file, which reads its number of keys.
  unfoldable pub fetch_node : ℤ → Op (Index K S) (Option ℤ)
  unfolding is_valid get_index_page get_num_keys
  fetch_node p = or_null (
      when_index_valid (λ s.
        if ltb_ℤ p (pos 0)
        then err s bad_ix_page
        else ((do get_index_page p; modify (λ t. set_node p (get_num_keys (t.nodes p)) t); pure p)
            s)))

  -- The constructor of a node object for a new page.
  abbrev pub make_node : ℤ → Index K S → Index K S
  make_node p s =
      set_node p (new_node s.hdr.page_size s.hdr.attr_length p (s.nodes p).keys (s.nodes p).rids) s

  unfoldable pub force_index : Op (Index K S) (Unit {0})
  unfolding is_valid
  force_index = when_index_valid (on_pages pf.force)
