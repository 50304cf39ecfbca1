-- ===== src/Btree/Insert.antt =====
-- `BtreeNode::Insert`: where the new entry goes, and what the node holds afterwards.
use redbase.Base.{
  ℕ, zero, suc, ◌+◌, ◌≤◌, ◌<◌, ◌≡◌, refl, true, false, arith, Bool-cases, inl, inr, pos, insert_at,
  tabulate-insert_at, le-false, update, lt→ltb,
}
use redbase.Btree.Key.{KeyOrder, ge0, lt0, le0}
use redbase.Btree.Node.{Node, entries, move_up, set_key, shift, insert, get_num_keys, set_num_keys}
use redbase.Record.Rid.{Rid}

-- The member that caches the number of keys agrees with the page, and the entries fit.
pub record IsValid {K : Type 0} (n : Node K) : Type 0 where
  pub synced : n.stored_keys ≡ n.num_keys
  pub fits : n.num_keys ≤ n.order

-- On a valid node `GetNumKeys` changes nothing.
pub get_num_keys_valid : {K : Type 0} (n : Node K) → IsValid n → get_num_keys n ≡ n
unfolding get_num_keys
get_num_keys_valid n v = λ i. record n { num_keys = v.synced i }

-- Nothing but keys and record identifiers differs.
pub record SameFrame {K : Type 0} (n m : Node K) : Type 0 where
  pub order : m.order ≡ n.order
  pub page : m.page_rid ≡ n.page_rid
  pub left : m.left ≡ n.left
  pub right : m.right ≡ n.right

module _ {K : Type 0} where
  -- The arrays after the entries from `i` to `count` moved up by one.
  pub record IsShifted (n m : Node K) (count i : ℕ) : Type 0 where
    pub low : (j : ℕ) → j < i → (m.keys j ≡ n.keys j) × (m.rids j ≡ n.rids j)
    pub high :
        (j : ℕ) → i ≤ j → j < count → (m.keys (suc j) ≡ n.keys j) × (m.rids (suc j) ≡ n.rids j)
    pub rest : (j : ℕ) → count < j → (m.keys j ≡ n.keys j) × (m.rids j ≡ n.rids j)
    pub stored : m.stored_keys ≡ n.stored_keys
    pub counted : m.num_keys ≡ n.num_keys
    pub frame : SameFrame n m

  -- The node after the entry `(x, r)` came in at place `i`.
  pub record IsInserted (x : K) (r : Rid) (n m : Node K) (i : ℕ) : Type 0 where
    pub le : i ≤ n.num_keys
    pub low : (j : ℕ) → j < i → (m.keys j ≡ n.keys j) × (m.rids j ≡ n.rids j)
    pub here : (m.keys i ≡ x) × (m.rids i ≡ r)
    pub high :
        (j : ℕ) → i ≤ j → j < n.num_keys → (m.keys (suc j) ≡ n.keys j) × (m.rids (suc j) ≡ n.rids j)
    pub counted : m.num_keys ≡ suc n.num_keys
    pub valid : IsValid m
    pub frame : SameFrame n m

module _ {K : Type 0} ⦃key : KeyOrder K⦄ where
  -- The keys ascend, with equal keys allowed.
  abbrev pub IsSorted : Node K → Type 0
  IsSorted n = (i j : ℕ) → i < j → j < n.num_keys → le0 (key.cmp (n.keys i) (n.keys j)) ≡ true

  -- `i` is the place behind the rightmost key that is not larger than `x`, or the first one.
  pub record IsPlace (x : K) (n : Node K) (count i : ℕ) : Type 0 where
    pub le : i ≤ count
    pub larger : (j : ℕ) → i ≤ j → j < count → lt0 (key.cmp x (n.keys j)) ≡ true
    pub bound : (j : ℕ) → suc j ≡ i → ge0 (key.cmp x (n.keys j)) ≡ true

  -- One round of the loop before the others.
  IsShifted-step :
      (n m : Node K) (i p : ℕ)
      → suc i < n.order
      → p ≤ i
      → IsShifted (move_up i n) m i p
      → IsShifted n m (suc i) p
  unfolding move_up set_key
  IsShifted-step n m i p h le s = record {
    low = λ j l. grind (arith, s.low j l);
    high = λ j l l'. grind (arith, s.high j l, s.rest (suc j));
    rest = λ j l. grind (arith, s.rest j);
    stored = ground (arith, s.stored);
    counted = ground (arith, s.counted);
    frame = ground (arith, s.frame);
  }

  shift_stop :
      (x : K) (i : ℕ) (n : Node K)
      → ge0 (key.cmp x (n.keys i)) ≡ true
      → shift x (suc i) n ≡ (suc i, n)
  unfolding shift
  shift_stop x i n h = ground arith

  shift_go :
      (x : K) (i : ℕ) (n : Node K)
      → ge0 (key.cmp x (n.keys i)) ≡ false
      → shift x (suc i) n ≡ shift x i (move_up i n)
  unfolding shift
  shift_go x i n h = ground arith

  IsPlace-step :
      (x : K) (n : Node K) (i p : ℕ)
      → suc i < n.order
      → ge0 (key.cmp x (n.keys i)) ≡ false
      → IsPlace x (move_up i n) i p
      → IsPlace x n (suc i) p
  unfolding move_up set_key
  IsPlace-step x n i p h go s = record {
    le = omega arith;
    larger = λ j l l'. grind (arith, s.larger j l);
    bound = λ j e. grind (arith, s.bound j e);
  }

  IsShifted-refl : (n : Node K) (i : ℕ) → IsShifted n n i i
  IsShifted-refl n i = record {
    low = λ j l. (refl, refl);
    high = λ j l l'. absurd (omega arith);
    rest = λ j l. (refl, refl);
    stored = refl;
    counted = refl;
    frame = record { order = refl; page = refl; left = refl; right = refl };
  }

  move_up-order : (n : Node K) (i : ℕ) → (move_up i n).order ≡ n.order
  unfolding move_up set_key
  move_up-order n i = ground arith

  shift_lem :
      (x : K) (count : ℕ) (n : Node K)
      → count < n.order
      → IsPlace x n count (shift x count n).0
        × IsShifted n (shift x count n).1 count (shift x count n).0
  shift_lem x zero n h =
      unfold shift in
      (
        record {
          le = omega arith;
          larger = λ j l l'. absurd (omega arith);
          bound = λ j e. absurd (omega arith);
        },
        IsShifted-refl n 0,
      )
  shift_lem x (suc i) n h = elim (Bool-cases (ge0 (key.cmp x (n.keys i)))) [
    | inl stop ↦ rw (shift_stop x i n stop) (
      record {
        le = omega arith;
        larger = λ j l l'. absurd (omega arith);
        bound = λ j e. grind (arith, stop);
      },
      IsShifted-refl n (suc i),
    )
    | inr go ↦
        let (place, shifted) = shift_lem x i (move_up i n) (omega (arith, move_up-order n i)) in
        rw (shift_go x i n go)
          (IsPlace-step x n i _ h go place, IsShifted-step n _ i _ h place.le shifted)
  ]

  abbrev entry_of : Node K → ℕ → K × Rid
  entry_of n i = (n.keys i, n.rids i)

  pub IsInserted-entries :
      {x : K} {r : Rid} {n m : Node K} {i : ℕ}
      → IsInserted x r n m i
      → entries m ≡ insert_at i (x, r) (entries n)
  IsInserted-entries {x} {r} {n} {m} {i} s = rw s.counted (
      tabulate-insert_at n.num_keys i (entry_of n) (entry_of m) (x, r) s.le
        (λ j l. ground (arith, s.low j l)) (ground (arith, s.here))
        (λ j l l'. ground (arith, s.high j l l')))

  -- The node with the entry stored at `i` and counted.
  abbrev filed : ℕ → K → Rid → Node K → Node K
  filed i x r m = record m {
    keys = update m.keys i x;
    rids = update m.rids i r;
    stored_keys = m.stored_keys + 1;
    num_keys = m.stored_keys + 1;
  }

  insert_run :
      (x : K) (r : Rid) (n : Node K)
      → n.num_keys < n.order
      → (shift x n.num_keys n).0 < (shift x n.num_keys n).1.order
      → insert x r n ≡ (filed (shift x n.num_keys n).0 x r (shift x n.num_keys n).1, pos 0)
  unfolding insert set_key get_num_keys set_num_keys
  insert_run x r n room inside = rw (le-false _ _ room, insert) (rw (lt→ltb _ _ inside))

  filed-IsInserted :
      (x : K) (r : Rid) (n m : Node K) (i : ℕ)
      → IsValid n
      → n.num_keys < n.order
      → i ≤ n.num_keys
      → IsShifted n m n.num_keys i
      → IsInserted x r n (filed i x r m) i
  filed-IsInserted x r n m i v room le s = record {
    le = le;
    low = λ j l. grind (arith, s.low j l);
    here = grind arith;
    high = λ j l l'. grind (arith, s.high j l l');
    counted = grind (arith, s.stored);
    valid = record { synced = refl; fits = grind (arith, s.stored, s.frame.order) };
    frame = record {
      order = s.frame.order;
      page = s.frame.page;
      left = s.frame.left;
      right = s.frame.right;
    };
  }

  pub insert_lem :
      (x : K) (r : Rid) (n : Node K)
      → IsValid n
      → n.num_keys < n.order
      → (i : ℕ) × IsPlace x n n.num_keys i
        × IsInserted x r n (insert x r n).0 i
        × ((insert x r n).1 ≡ pos 0)
  insert_lem x r n v room =
      let (place, shifted) = shift_lem x n.num_keys n room in
      let run = insert_run x r n room (grind (arith, shifted.frame.order, place.le)) in
      (
        (shift x n.num_keys n).0,
        place,
        rw run (filed-IsInserted x r n _ _ v room place.le shifted),
        rw run,
      )
