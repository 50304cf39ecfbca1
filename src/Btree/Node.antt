-- ===== src/Btree/Node.antt =====
-- One node: the class `BtreeNode` of src/btree_node.h and src/btree_node.cc. The page's arrays of
-- keys and record identifiers are functions of the index; `stored_keys` is the number on the page
-- and `num_keys` the member that caches it.
use redbase.Base.{
  ℕ, zero, suc, ◌+◌, ◌-◌, ◌*◌, ◌/◌, Bool, true, false, Option, none, some, List, ltb, leb, ◌==◌,
  if◌then◌else◌, update, tabulate, ℤ, pos, negsuc, ltb_ℤ, eqb_ℤ,
}
use redbase.Btree.Key.{KeyOrder, ge0, gt0, eq0}
use redbase.Record.Rid.{Rid, null_rid, rid_eq}

pub record Node {ℓ} (K : Type ℓ) : Type ℓ where
  pub keys : ℕ → K
  pub rids : ℕ → Rid
  pub stored_keys : ℕ
  pub left : ℤ
  pub right : ℤ
  pub num_keys : ℕ
  pub order : ℕ
  pub page_rid : Rid

-- The loop of the constructor that lowers `order` until the arrays fit the page. `fuel` bounds the
-- rounds: the order falls in each.
unfoldable pub fit_order : ℕ → ℕ → ℕ → ℕ → ℕ
fit_order zero room entry order = order
fit_order (suc fuel) room entry order =
    let rest = fit_order fuel room entry (order - 1) in
    if ltb room (order * entry) then rest else order

-- `order` as the constructor computes it: 4 bytes for the number of keys, 8 for the two neighbours,
-- 8 for a record identifier.
unfoldable pub node_order : ℕ → ℕ → ℕ
unfolding fit_order
node_order page_size attr_length =
    let start = (page_size + 4 + 2 * 4) / (8 + attr_length) in
    fit_order start (page_size - 4 - 2 * 4) (attr_length + 8) start

module _ {ℓ} {K : Type ℓ} where
  -- The constructor on a new page, whose old contents are `keys` and `rids`.
  unfoldable pub new_node : ℕ → ℕ → ℤ → (ℕ → K) → (ℕ → Rid) → Node K
  unfolding node_order
  new_node page_size attr_length page keys rids = record {
    keys = keys;
    rids = rids;
    stored_keys = 0;
    left = negsuc 0;
    right = negsuc 0;
    num_keys = 0;
    order = node_order page_size attr_length;
    page_rid = record { page = page; slot = negsuc 0 };
  }

  -- `GetNumKeys`: reads the page and refreshes the member.
  unfoldable pub get_num_keys : Node K → Node K
  get_num_keys n = record n { num_keys = n.stored_keys }

  unfoldable pub set_num_keys : ℕ → Node K → Node K
  set_num_keys k n = record n { stored_keys = k; num_keys = k }

  -- `IsValid`, for a node whose page is in memory.
  unfoldable pub is_valid : Node K → ℤ
  is_valid n =
      if n.order == 0 then pos 202 else if leb n.num_keys n.order then pos 0 else negsuc 202

  -- `Destroy`: 0 for an empty node, which may not be used again.
  unfoldable pub destroy : Node K → ℤ
  destroy n = if n.num_keys == 0 then pos 0 else negsuc 0

  -- `GetKey`; `none` is the code -1.
  unfoldable pub get_key : Node K → ℕ → Option K
  get_key n i = if ltb i n.num_keys then some (n.keys i) else none

  -- `CopyKey`, which reads up to the order; `none` is the code -1.
  unfoldable pub copy_key : Node K → ℕ → Option K
  copy_key n i = if ltb i n.order then some (n.keys i) else none

  -- `SetKey`; a position outside the page's array is refused.
  unfoldable pub set_key : ℕ → K → Node K → Node K × ℤ
  set_key i k n =
      if ltb i n.order then (record n { keys = update n.keys i k }, pos 0) else (n, negsuc 0)

  unfoldable pub largest_key : Node K → Option K
  unfolding get_key
  largest_key n = if ltb 0 n.num_keys then get_key n (n.num_keys - 1) else none

  -- `GetAddr`; the test lets the position after the last key pass.
  unfoldable pub get_addr : Node K → ℤ → Rid
  get_addr n (negsuc i) = null_rid
  get_addr n (pos i) = if ltb n.num_keys i then null_rid else n.rids i

  -- The body of the loop of `Insert`: entry `i` moves one place up.
  unfoldable pub move_up : ℕ → Node K → Node K
  unfolding set_key
  move_up i n =
      (set_key (suc i) (n.keys i) (record n { rids = update n.rids (suc i) (n.rids i) })).0

  -- The body of the loop of `Remove`: entry `i + 1` moves one place down.
  unfoldable pub move_down : ℕ → Node K → Node K
  unfolding set_key
  move_down i n =
      let m = (set_key i (n.keys (suc i)) n).0 in
      record m { rids = update m.rids i (m.rids (suc i)) }

  -- The loop of `Remove`, with its rounds counted down.
  unfoldable pub close_gap : ℕ → ℕ → Node K → Node K
  unfolding move_down
  close_gap zero i n = n
  close_gap (suc rounds) i n = close_gap rounds (suc i) (move_down i n)

  -- `Remove` from its loop on, for a position that was found.
  unfoldable pub remove_found : ℕ → Node K → Node K × ℤ
  unfolding close_gap get_num_keys set_num_keys
  remove_found i n =
      let m = get_num_keys (close_gap (n.num_keys - 1 - i) i n) in
      let r = set_num_keys (m.num_keys - 1) m in (r, if r.num_keys == 0 then negsuc 0 else pos 0)

  -- `Remove` with its second argument.
  unfoldable pub remove_at : ℕ → Node K → Node K × ℤ
  unfolding remove_found
  remove_at i n = if leb n.num_keys i then (n, negsuc 1) else remove_found i n

  -- The second loop of `Split`, and that of `Merge`.
  unfoldable pub drop_entries : ℕ → ℕ → Node K → Node K × ℤ
  unfolding remove_at
  drop_entries zero i n = (n, pos 0)
  drop_entries (suc rounds) i n =
      let (less, rc) = remove_at i n in
      elim (ltb_ℤ rc (negsuc 0)) [ true ↦ (less, rc) | false ↦ drop_entries rounds i less ]

  -- The entries of a node in order.
  abbrev pub entries : Node K → List (K × Rid)
  entries n = tabulate n.num_keys (λ i. (n.keys i, n.rids i))

module _ {ℓ} {K : Type ℓ} ⦃key : KeyOrder K⦄ where
  -- The loop of `Insert`: from entry `i - 1` down, each larger entry moves up. The result is the
  -- place for the new entry.
  unfoldable pub shift : K → ℕ → Node K → ℕ × Node K
  unfolding move_up
  shift x zero n = (zero, n)
  shift x (suc i) n = elim (ge0 (key.cmp x (n.keys i))) [
    | true ↦ (suc i, n)
    | false ↦ shift x i (move_up i n)
  ]

  unfoldable pub insert : K → Rid → Node K → Node K × ℤ
  unfolding shift set_key get_num_keys set_num_keys
  insert x r n =
      if leb n.order n.num_keys
      then (n, negsuc 0)
      else (let (i, m) = shift x n.num_keys n in
          let stored = (set_key i x (record m { rids = update m.rids i r })).0 in
          let counted = get_num_keys stored in (set_num_keys (counted.num_keys + 1) counted, pos 0))

  -- The loop of `FindKey`, from entry `i - 1` down.
  unfoldable pub find_from : K → Rid → Node K → ℕ → ℤ
  unfolding get_key rid_eq
  find_from x r n zero = negsuc 0
  find_from x r n (suc i) =
      let rest = find_from x r n i in
      elim (get_key n i) [
        | none ↦ negsuc 0
        | some k ↦
            if eq0 (key.cmp x k)
            then (if rid_eq r null_rid
                then pos i
                else (if rid_eq (n.rids i) r then pos i else rest))
            else rest
      ]

  -- `FindKey`
  unfoldable pub find_key : K → Rid → Node K → ℤ
  unfolding find_from
  find_key x r n = find_from x r n n.num_keys

  -- The loop of `FindKeyPosition`, from entry `i - 1` down.
  unfoldable pub position_from : K → Node K → ℕ → ℤ
  unfolding get_key
  position_from x n zero = pos 0
  position_from x n (suc i) =
      let rest = position_from x n i in
      elim (get_key n i) [
        | none ↦ negsuc 0
        | some k ↦
            if eq0 (key.cmp x k) then pos i else (if gt0 (key.cmp x k) then pos (suc i) else rest)
      ]

  unfoldable pub find_key_position : K → Node K → ℤ
  unfolding position_from
  find_key_position x n = position_from x n n.num_keys

  unfoldable pub rid_at : Node K → ℤ → Rid
  rid_at n (negsuc i) = null_rid
  rid_at n (pos i) = n.rids i

  unfoldable pub find_addr : K → Node K → Rid
  unfolding find_key rid_at
  find_addr x n = rid_at n (find_key x null_rid n)

  unfoldable pub find_addr_at_position : K → Node K → Rid
  unfolding find_key_position rid_at
  find_addr_at_position x n =
      let i = find_key_position x n in if ltb_ℤ i (pos n.num_keys) then rid_at n i else null_rid

  -- `Remove` with the key alone.
  unfoldable pub remove : K → Node K → Node K × ℤ
  unfolding find_key remove_found
  remove x n = elim (find_key x null_rid n) [ negsuc _ ↦ (n, negsuc 1) | pos i ↦ remove_found i n ]

  -- The loop of `isSorted`, over the pairs from `i` on, with its rounds counted down.
  unfoldable pub sorted_from : ℕ → ℕ → Node K → Bool
  sorted_from zero i n = true
  sorted_from (suc rounds) i n =
      let rest = sorted_from rounds (suc i) n in
      if gt0 (key.cmp (n.keys i) (n.keys (suc i))) then false else rest

  unfoldable pub is_sorted : Node K → Bool
  unfolding sorted_from
  is_sorted n = sorted_from (n.num_keys - 2) 0 n

  -- The first loop of `Split`, and that of `Merge`: `rounds` entries of `src` from `i` on are
  -- inserted into `dst`, until one is refused.
  unfoldable pub copy_entries : ℕ → ℕ → Node K → Node K → Node K × ℤ
  unfolding insert
  copy_entries zero i src dst = (dst, pos 0)
  copy_entries (suc rounds) i src dst =
      let (more, rc) = insert (src.keys i) (src.rids i) dst in
      elim (eq0 rc) [ true ↦ copy_entries rounds (suc i) src more | false ↦ (more, rc) ]

  -- `Split`: this node and the other one afterwards, with the code.
  unfoldable pub split : Node K → Node K → Node K × Node K × ℤ
  unfolding copy_entries drop_entries get_num_keys
  split n other =
      let first_moved = (n.num_keys + 1) / 2 in
      let move_count = n.num_keys - first_moved in
      let rhs = get_num_keys other in
      if ltb rhs.order (rhs.num_keys + move_count)
      then (n, rhs, negsuc 0)
      else (let (filled, rc) = copy_entries move_count first_moved n rhs in
          if eq0 rc
          then (let (kept, rc') = drop_entries move_count first_moved n in
              if ltb_ℤ rc' (negsuc 0) then (kept, filled, rc') else (
                record kept { right = filled.page_rid.page },
                record filled { right = kept.right; left = kept.page_rid.page },
                pos 0,
              ))
          else (n, filled, rc))

  -- `Merge`: everything of the other node moves here.
  unfoldable pub merge : Node K → Node K → Node K × Node K × ℤ
  unfolding copy_entries drop_entries get_num_keys
  merge n neighbour =
      let other = get_num_keys neighbour in
      if ltb n.order (n.num_keys + other.num_keys)
      then (n, other, negsuc 0)
      else (let (filled, rc) = copy_entries other.num_keys 0 other n in
          if eq0 rc
          then (let (emptied, rc') = drop_entries other.num_keys 0 other in
              if ltb_ℤ rc' (negsuc 0)
              then (filled, emptied, rc')
              else (if eqb_ℤ filled.page_rid.page emptied.left
                  then (record filled { right = emptied.right }, emptied, pos 0)
                  else (record filled { left = emptied.left }, emptied, pos 0)))
          else (filled, other, rc))
