-- ===== src/Tests/Trees.antt =====
-- A tree of two leaves, for the theorems on the index.
use redbase.Base.{
  ℕ, zero, suc, ◌<◌, ◌≡◌, ◌≢◌, refl, ap, sym, ◌∙◌, subst, arith, ℤ, pos, negsuc, none, some, true,
  inl, inr, ◌^◌, if◌then◌else◌, ◌==◌,
}
use redbase.Btree.Compare.{cmp_int, int_order}
use redbase.Btree.Insert.{IsSorted}
use redbase.Btree.Key.{eq0}
use redbase.Btree.Node.{Node}
use redbase.Btree.Order.{Le}
use redbase.Index.Adds.{IsBtree}
use redbase.Index.Apart.{Below, IsApart}
use redbase.Index.Path.{child_for}
use redbase.Index.Reach.{IsIndex}
use redbase.Index.Tree.{kid, IsInner, IsLeaf, IsUsable, Holds, IsTree, leaf_for}
use redbase.Index.{Index, is_valid}
use redbase.Record.Rid.{Rid, null_rid}
use redbase.Paged.File.Held.{IsReady}
use redbase.Paged.File.{State}
use redbase.Tests.Held.{file, OneToThree, file-IsReady}
use redbase.Tests.Indexes.{rid, created}

abbrev pub pair : {A : Type 0} → A → A → ℕ → A
pair a b zero = a
pair a b (suc i) = b

abbrev pub two : ℤ → ℤ → Rid → ℤ → Rid → Node ℤ
two page a ra b rb = record {
  keys = pair a b;
  rids = pair ra rb;
  stored_keys = 2;
  left = negsuc 0;
  right = negsuc 0;
  num_keys = 2;
  order = 3;
  page_rid = record { page = page; slot = negsuc 0 };
}

abbrev pub low : Node ℤ
low = two (pos 1) (pos 1) (rid 1) (pos 3) (rid 3)

abbrev pub high : Node ℤ
high = two (pos 2) (pos 5) (rid 5) (pos 8) (rid 8)

abbrev pub top : Node ℤ
top =
    two (pos 3) (pos 3) (record { page = pos 1; slot = negsuc 0 }) (pos 8)
      (record { page = pos 2; slot = negsuc 0 })

abbrev pub nodes : ℤ → Node ℤ
nodes (pos p) = if p == 1 then low else (if p == 2 then high else top)
nodes (negsuc p) = top

abbrev pub opened : Index ℤ (State Unit)
opened = record {
  pages = file;
  nodes = nodes;
  stored_hdr = created;
  hdr = record created { num_pages = pos 4; root_page = pos 3; height = 2; order = 3 };
  file_open = true;
  has_handle = true;
  hdr_changed = true;
  root = some (pos 3);
  has_path = true;
  path = λ i. if i == 0 then some (pos 3) else none;
  path_pos = λ i. negsuc 0;
  tree_largest = pos 8;
}

pub below_two : (P : ℕ → Type 0) → P 0 → P 1 → (j : ℕ) → j < 2 → P j
below_two P a b zero l = a
below_two P a b (suc zero) l = b
below_two P a b (suc (suc j)) l = absurd (omega arith)

pub two-IsSorted :
    (n : Node ℤ)
    → n.num_keys ≡ 2
    → Le ⦃key = int_order⦄ (n.keys 0) (n.keys 1)
    → IsSorted ⦃key = int_order⦄ n
two-IsSorted n e h zero zero l l' = absurd (omega arith)
two-IsSorted n e h zero (suc zero) l l' = h
two-IsSorted n e h zero (suc (suc j)) l l' = absurd (omega arith)
two-IsSorted n e h (suc i) zero l l' = absurd (omega arith)
two-IsSorted n e h (suc i) (suc zero) l l' = absurd (omega arith)
two-IsSorted n e h (suc i) (suc (suc j)) l l' = absurd (omega arith)

pub leaf-IsTree :
    (p : ℤ) (n : Node ℤ)
    → IsUsable OneToThree nodes p
    → nodes p ≡ n
    → IsLeaf ⦃key = int_order⦄ n
    → IsTree ⦃key = int_order⦄ OneToThree nodes 0 p
unfolding IsTree
leaf-IsTree p n u e leaf = (u, subst (λ m. IsLeaf ⦃key = int_order⦄ m) (sym e) leaf)

pub low-IsTree : IsTree ⦃key = int_order⦄ OneToThree nodes 0 (pos 1)
unfolding cmp_int
low-IsTree =
    leaf-IsTree (pos 1) low
      (record {
        in_use = inl refl;
        numbered = refl;
        valid = record { synced = refl; fits = omega arith };
      })
      refl
      (record {
        sorted = two-IsSorted low refl refl;
        real = below_two (λ j. low.rids j ≢ null_rid) (λ e. absurd (cc e)) (λ e. absurd (cc e));
      })

pub high-IsTree : IsTree ⦃key = int_order⦄ OneToThree nodes 0 (pos 2)
unfolding cmp_int
high-IsTree =
    leaf-IsTree (pos 2) high
      (record {
        in_use = inr (inl refl);
        numbered = refl;
        valid = record { synced = refl; fits = omega arith };
      })
      refl
      (record {
        sorted = two-IsSorted high refl refl;
        real = below_two (λ j. high.rids j ≢ null_rid) (λ e. absurd (cc e)) (λ e. absurd (cc e));
      })

abbrev pub In : ℤ → ℤ → Rid → Type 0
In = Holds ⦃key = int_order⦄ nodes 0

-- A fact of the keys of a leaf with two entries.
pub held_two :
    (p : ℤ) (n : Node ℤ) (P : ℤ → Type 0)
    → nodes p ≡ n
    → n.num_keys ≡ 2
    → P (n.keys 0)
    → P (n.keys 1)
    → (k : ℤ) (r : Rid) → In p k r
    → P k
unfolding Holds
held_two p n P e two a b k r (i, l, e', _) =
    subst P (ap (λ m. m.keys i) (sym e) ∙ e') (
      below_two (λ i. P (n.keys i)) a b i
        (subst (λ c. i < c) two (subst (λ m. i < m.num_keys) e l)))

pub top-IsInner : IsInner ⦃key = int_order⦄ top (IsTree ⦃key = int_order⦄ OneToThree nodes 0) In
unfolding Holds cmp_int
top-IsInner = record {
  sorted = two-IsSorted top refl refl;
  nonempty = omega arith;
  child =
      below_two (λ j. IsTree ⦃key = int_order⦄ OneToThree nodes 0 (kid top j)) low-IsTree
        high-IsTree;
  upper = λ j k r l.
      below_two (λ i. In (kid top i) k r → Le ⦃key = int_order⦄ k (top.keys i))
        (held_two (pos 1) low (λ a. Le ⦃key = int_order⦄ a (pos 3)) refl refl refl refl k r)
        (held_two (pos 2) high (λ a. Le ⦃key = int_order⦄ a (pos 8)) refl refl refl refl k r) j l;
  lower = λ j k r l.
      below_two (λ i. suc i < 2 → In (kid top (suc i)) k r → Le ⦃key = int_order⦄ (top.keys i) k)
        (λ _. held_two (pos 2) high (λ a. Le ⦃key = int_order⦄ (pos 3) a) refl refl refl refl k r)
        (λ l'. absurd (omega arith)) j (omega arith) l;
  present =
      below_two
        (λ j.
          (k : ℤ) × (r : Rid) × In (kid top j) k r × (eq0 (int_order.cmp (top.keys j) k) ≡ true))
        (pos 3, rid 3, (1, omega arith, refl, refl), refl)
        (pos 8, rid 8, (1, omega arith, refl, refl), refl);
}

pub opened-IsTree : IsTree ⦃key = int_order⦄ OneToThree nodes 1 (pos 3)
unfolding IsTree
opened-IsTree = (
  record {
    in_use = inr (inr refl);
    numbered = refl;
    valid = record { synced = refl; fits = omega arith };
  },
  top-IsInner,
)

pub opened-IsIndex :
    (n : ℕ)
    → n < 2 ^ 16
    → IsIndex ⦃key = int_order⦄ OneToThree (IsReady OneToThree n) opened 1 (pos 3)
unfolding is_valid
opened-IsIndex n small = record {
  valid = refl;
  good = file-IsReady n small;
  at_root = refl;
  first = refl;
  tall = refl;
  tree = opened-IsTree;
}

pub kids-apart : (i : ℕ) → i < 2 → (j : ℕ) → j < 2 → i ≢ j → kid top i ≡ kid top j → ⊥
kids-apart =
    below_two (λ i. (j : ℕ) → j < 2 → i ≢ j → kid top i ≡ kid top j → ⊥)
      (below_two (λ j. 0 ≢ j → kid top 0 ≡ kid top j → ⊥) (λ ne e. ne refl) (λ ne e. absurd (cc e)))
      (below_two (λ j. 1 ≢ j → kid top 1 ≡ kid top j → ⊥) (λ ne e. absurd (cc e)) (λ ne e. ne refl))

pub opened-IsApart : IsApart nodes 1 (pos 3)
unfolding IsApart
opened-IsApart = record {
  own =
      below_two (λ j. Below nodes 0 (kid top j) (pos 3) → ⊥) (λ e. absurd (cc e))
        (λ e. absurd (cc e));
  apart = λ i j q li lj ne e e'. kids-apart i li j lj ne (sym e ∙ e');
  child = λ j l. tt;
}

pub opened-IsBtree :
    (n : ℕ)
    → n < 2 ^ 16
    → IsBtree ⦃key = int_order⦄ OneToThree (IsReady OneToThree n) opened 1 (pos 3)
unfolding Holds cmp_int
opened-IsBtree n small = record {
  index = opened-IsIndex n small;
  apart = opened-IsApart;
  top = (
    (λ k r (j, l, h).
        below_two (λ i. In (kid top i) k r → Le ⦃key = int_order⦄ k (pos 8))
          (held_two (pos 1) low (λ a. Le ⦃key = int_order⦄ a (pos 8)) refl refl refl refl k r)
          (held_two (pos 2) high (λ a. Le ⦃key = int_order⦄ a (pos 8)) refl refl refl refl k r) j l
          h),
    λ _ _ _. (pos 8, rid 8, (1, omega arith, (1, omega arith, refl, refl)), refl),
  );
}

pub held_rid :
    (p : ℤ) (n : Node ℤ) (P : Rid → Type 0)
    → nodes p ≡ n
    → n.num_keys ≡ 2
    → P (n.rids 0)
    → P (n.rids 1)
    → (k : ℤ) (r : Rid) → In p k r
    → P r
unfolding Holds
held_rid p n P e two a b k r (i, l, _, e') =
    subst P (ap (λ m. m.rids i) (sym e) ∙ e') (
      below_two (λ i. P (n.rids i)) a b i
        (subst (λ c. i < c) two (subst (λ m. i < m.num_keys) e l)))

pub new_rid : (k : ℤ) → Holds ⦃key = int_order⦄ nodes 1 (pos 3) k (rid 4) → ⊥
unfolding Holds
new_rid k (j, l, h) =
    below_two (λ i. In (kid top i) k (rid 4) → ⊥)
      (λ h'.
        held_rid (pos 1) low (λ r. r ≢ rid 4) refl refl (λ e. absurd (cc e)) (λ e. absurd (cc e)) k
          (rid 4) h' refl)
      (λ h'.
        held_rid (pos 2) high (λ r. r ≢ rid 4) refl refl (λ e. absurd (cc e)) (λ e. absurd (cc e)) k
          (rid 4) h' refl)
      j l h

pub leaf_of_four : leaf_for ⦃key = int_order⦄ (pos 4) nodes 1 (pos 3) ≡ pos 2
unfolding leaf_for child_for cmp_int
leaf_of_four = refl

pub leaf_of_five : leaf_for ⦃key = int_order⦄ (pos 5) nodes 1 (pos 3) ≡ pos 2
unfolding leaf_for child_for cmp_int
leaf_of_five = refl

pub room_for_four :
    (nodes (leaf_for ⦃key = int_order⦄ (pos 4) nodes 1 (pos 3))).num_keys
    < (nodes (leaf_for ⦃key = int_order⦄ (pos 4) nodes 1 (pos 3))).order
room_for_four = rw (leaf_of_four) (omega arith)

pub has_five :
    Holds ⦃key = int_order⦄ nodes 0
      (leaf_for ⦃key = int_order⦄ (pos 5) nodes 1 (pos 3))
      (pos 5)
      (rid 5)
unfolding Holds
has_five = rw (leaf_of_five) (0, omega arith, refl, refl)
