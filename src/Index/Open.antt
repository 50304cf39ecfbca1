-- ===== src/Index/Open.antt =====
-- `Open` of src/ix_indexhandle.cc, the header's page, and the destructor.
use redbase.Base.{
  ℕ, zero, suc, ◌-◌, Bool, true, false, not, ◌&&◌, ◌||◌, Option, none, some, if◌then◌else◌, ltb,
  ◌==◌, ℤ, pos, ltb_ℤ, eqb_ℤ,
}
use redbase.Btree.Node.{get_num_keys, copy_key}
use redbase.Index.Path.{find_largest_leaf, set_path}
use redbase.Index.{
  Pages, Index, is_valid, get_index_page, get_new_page, make_node, set_node, set_height, set_hdr,
  pin_page, un_pin, ignoring, deref, is_null, handle_open, bad_open,
}
use redbase.Paged.Outcome.{ok, err, fault, Op, ◌>>=◌, ◌>>◌, pure, modify}

module _ {K S : Type 0} where
  -- `GetFileHeader` and `SetFileHeader`, on a handle of page 0.
  unfoldable pub get_file_header : Index K S → Index K S
  get_file_header s = record s { hdr = s.stored_hdr }

  unfoldable pub set_file_header : Index K S → Index K S
  set_file_header s = record s { stored_hdr = s.hdr }

module _ {K S : Type 0} ⦃pf : Pages S⦄ where
  -- The page of the root: that of the header, or a new one for an index without a tree. The answer
  -- tells whether it is new.
  unfoldable pub find_root : Op (Index K S) Bool
  unfolding set_height get_index_page get_new_page
  find_root s = elim (s.hdr.height == 0) [
    | false ↦
        (do
          modify (λ t. set_height t.hdr.height t)
          (λ t. get_index_page t.hdr.root_page t)
          pure false)
          s
    | true ↦
        (do
          p ← get_new_page
          get_index_page p
          modify (set_hdr (λ h. record h { root_page = p }))
          modify (set_height 1)
          pure true)
          s
  ]

  -- The node object of the root, which `path` starts with.
  unfoldable pub load_root : Bool → Index K S → Index K S
  unfolding get_num_keys
  load_root new_page s =
      let p = s.hdr.root_page in
      let t = if new_page then make_node p s else set_node p (get_num_keys (s.nodes p)) s in
      record (set_path 0 (some p) t) {
        root = some p;
        hdr = record t.hdr { order = (t.nodes p).order };
        hdr_changed = true;
      }

  -- The largest key of a tree that was there before.
  unfoldable pub load_largest : Op (Index K S) (Unit {0})
  unfolding find_largest_leaf get_num_keys copy_key
  load_largest = do
    found ← find_largest_leaf
    p ← deref found
    modify (λ s. set_node p (get_num_keys (s.nodes p)) s)
    modify (λ s.
        let n = s.nodes p in
        if ltb 0 n.num_keys
        then elim (copy_key n (n.num_keys - 1)) [
          | none ↦ s
          | some k ↦ record s { tree_largest = k }
        ]
        else s)

  -- The header of the file is read where its page can be had; a failure is not looked at.
  unfoldable pub read_header : Op (Index K S) (Unit {0})
  unfolding get_index_page get_file_header
  read_header s = elim (get_index_page (pos 0) s) [
    | ok t _ ↦ ok (get_file_header t) tt
    | err t _ ↦ ok t tt
    | fault ↦ fault
  ]

  -- `Open` on a paged file, which may be a null pointer. Its last two parameters are not used.
  unfoldable pub open_index : Option S → ℤ → Op (Index K S) (Unit {0})
  unfolding read_header find_root pin_page load_root is_valid load_largest
  open_index given pair_size s =
      if s.file_open || s.has_handle then err s handle_open else elim given [
        | none ↦ err s bad_open
        | some file ↦
            if not (ltb_ℤ (pos 0) pair_size)
            then err s bad_open
            else ((do
              read_header
              new_page ← find_root
              (λ t. pin_page t.hdr.root_page t)
              modify (load_root new_page)
              (λ t. if eqb_ℤ (is_valid t) (pos 0) then ok t tt else err t (is_valid t))
              if new_page then pure tt else load_largest)
                (record s { file_open = true; has_handle = true; pages = file }))
      ]

  -- The loop of the destructor over the levels below the root, with its rounds counted down.
  unfoldable pub release_path : ℕ → ℕ → Op (Index K S) (Unit {0})
  unfolding un_pin
  release_path zero i s = ok s tt
  release_path (suc rounds) i s =
      ((λ t. elim (t.path i) [
        | none ↦ ok t tt
        | some p ↦ if t.has_handle then ignoring (un_pin (t.nodes p).page_rid.page) t else ok t tt
      ])
          >> release_path rounds (suc i))
        s

  -- The destructor.
  unfoldable pub close : Op (Index K S) (Unit {0})
  unfolding un_pin release_path
  close = do
    (λ s.
        if not (is_null s.root) && s.has_handle
        then (ignoring (un_pin s.hdr.root_page) >> modify (λ t. record t { root = none })) s
        else ok s tt)
    (λ s.
        if s.has_path
        then (release_path (s.hdr.height - 1) 1 >> modify (λ t. record t { has_path = false })) s
        else ok s tt)
    modify (λ s. record s { has_handle = false })
