-- ===== src/Index/Tree.antt =====
-- The tree of an index: what its nodes hold, and the order that `InsertEntry` and `DeleteEntry` of
-- src/ix_indexhandle.cc keep. The key of an inner node's entry is the largest key below it.
use redbase.Base.{ℕ, zero, suc, ◌<◌, ◌≡◌, ◌≢◌, true, false, ℤ, pos, ltb_ℤ, arith}
use redbase.Btree.Insert.{IsValid, IsSorted}
use redbase.Btree.Key.{KeyOrder, eq0, lt0, gt0}
use redbase.Btree.Node.{Node}
use redbase.Btree.Order.{Le}
use redbase.Index.Path.{child_for}
use redbase.Record.Rid.{Rid, null_rid}

-- The child at an entry of an inner node.
abbrev pub kid : {K : Type 0} → Node K → ℕ → ℤ
kid n j = (n.rids j).page

-- An inner node over children with the entries `In` that satisfy `Sub`.
pub record IsInner {K : Type 0} ⦃key : KeyOrder K⦄ (n : Node K) (Sub : ℤ → Type 0)
    (In : ℤ → K → Rid → Type 0) : Type 0 where
  pub sorted : IsSorted n
  pub nonempty : 0 < n.num_keys
  pub child : (j : ℕ) → j < n.num_keys → Sub (kid n j)
  pub upper : (j : ℕ) (k : K) (r : Rid) → j < n.num_keys → In (kid n j) k r → Le k (n.keys j)
  pub lower :
      (j : ℕ) (k : K) (r : Rid) → suc j < n.num_keys → In (kid n (suc j)) k r → Le (n.keys j) k
  pub present :
      (j : ℕ)
      → j < n.num_keys
      → (k : K) × (r : Rid) × In (kid n j) k r × (eq0 (key.cmp (n.keys j) k) ≡ true)

-- A leaf: its identifiers are those of records.
pub record IsLeaf {K : Type 0} ⦃key : KeyOrder K⦄ (n : Node K) : Type 0 where
  pub sorted : IsSorted n
  pub real : (j : ℕ) → j < n.num_keys → n.rids j ≢ null_rid

-- A page that the index may ask for, with the node on it.
pub record IsUsable {K : Type 0} (InUse : ℤ → Type 0) (nodes : ℤ → Node K) (p : ℤ) : Type 0 where
  pub in_use : InUse p
  pub numbered : ltb_ℤ p (pos 0) ≡ false
  pub valid : IsValid (nodes p)

module _ {K : Type 0} ⦃key : KeyOrder K⦄ where
  -- The entries of the leaves below a page, `height` levels down.
  unfoldable pub Holds : (ℤ → Node K) → ℕ → ℤ → K → Rid → Type 0
  Holds nodes zero p k r =
      (j : ℕ) × (j < (nodes p).num_keys) × ((nodes p).keys j ≡ k) × ((nodes p).rids j ≡ r)
  Holds nodes (suc height) p k r =
      (j : ℕ) × (j < (nodes p).num_keys) × Holds nodes height (kid (nodes p) j) k r

  unfoldable pub IsTree : (ℤ → Type 0) → (ℤ → Node K) → ℕ → ℤ → Type 0
  unfolding Holds
  IsTree InUse nodes zero p = IsUsable InUse nodes p × IsLeaf (nodes p)
  IsTree InUse nodes (suc height) p =
      IsUsable InUse nodes p × IsInner (nodes p) (IsTree InUse nodes height) (Holds nodes height)

  -- The leaf for a key, read from the nodes alone.
  unfoldable pub leaf_for : K → (ℤ → Node K) → ℕ → ℤ → ℤ
  unfolding child_for
  leaf_for x nodes zero p = p
  leaf_for x nodes (suc height) p = leaf_for x nodes height (child_for x (nodes p)).0

  -- A tree with an entry for a key, and the key's order.
  abbrev pub HasKey : K → (ℤ → Node K) → ℕ → ℤ → Type 0
  HasKey x nodes height p =
      (k : K) × (r : Rid) × Holds nodes height p k r × (eq0 (key.cmp x k) ≡ true)

  pub Le_of_eq : (a b : K) → eq0 (key.cmp a b) ≡ true → Le a b
  Le_of_eq a b e = ground arith

  pub Le_of_eq_sym : (a b : K) → eq0 (key.cmp a b) ≡ true → Le b a
  Le_of_eq_sym a b e = ground (arith, key.cmp_flip a b)

  pub eq_of_Le : (a b : K) → Le a b → Le b a → eq0 (key.cmp a b) ≡ true
  eq_of_Le a b h h' = ground (arith, key.cmp_flip a b, key.cmp_flip b a)

  pub not_lt_of_Le : (a b : K) → Le b a → lt0 (key.cmp a b) ≡ false
  not_lt_of_Le a b h = ground (arith, key.cmp_flip a b)

  -- `x` is not below a key that is at most an equal one.
  pub lt_false : (x a b : K) → Le a b → Le b x → lt0 (key.cmp x a) ≡ false
  lt_false x a b h h' = not_lt_of_Le x a (key.cmp_trans a b x h h')

  pub gt_false : (x a b : K) → Le x b → Le b a → gt0 (key.cmp x a) ≡ false
  gt_false x a b h h' = ground (arith, key.cmp_trans x b a h h')

  pub eq_trans :
      (a b c : K) → eq0 (key.cmp a b) ≡ true → eq0 (key.cmp b c) ≡ true → eq0 (key.cmp a c) ≡ true
  eq_trans a b c e e' =
      eq_of_Le a c (key.cmp_trans a b c (Le_of_eq a b e) (Le_of_eq b c e'))
        (key.cmp_trans c b a (Le_of_eq_sym b c e') (Le_of_eq_sym a b e))
