-- ===== src/Btree/Layout.antt =====
-- How many entries a page holds: the constructor of `BtreeNode`.
use redbase.Base.{
  ℕ, zero, suc, ◌+◌, ◌-◌, ◌*◌, ◌/◌, ◌≤◌, ◌<◌, ◌≡◌, refl, arith, pos, le-cases, lt-cases, inl, inr,
  ltb-false, lt→ltb, ℤ,
}
use native.Mathlib.Nat.{div-add-mod, mod-lt}
use redbase.Btree.Insert.{IsValid}
use redbase.Btree.Node.{fit_order, node_order, new_node, is_valid}
use redbase.Record.Rid.{Rid}

-- What the loop finds below `order`.
abbrev Fits : ℕ → ℕ → ℕ → ℕ → Type 0
Fits room entry order k = (k * entry ≤ room) × (k ≤ order) × (k < order → room < (k + 1) * entry)

Fits-step :
    (room entry order k : ℕ)
    → room < order * entry
    → Fits room entry (order - 1) k
    → Fits room entry order k
Fits-step room entry zero k over (a, b, c) = absurd (omega arith)
Fits-step room entry (suc o) k over (a, b, c) = (
  a,
  omega arith,
  λ l. elim (lt-cases k o) [
    | inl h ↦ c (omega arith)
    | inr (inl e) ↦ rw e (grind arith)
    | inr (inr h) ↦ absurd (omega arith)
  ],
)

-- The loop ends at the largest order whose entries fit, when it starts above it.
fit_order-Fits :
    (fuel room entry order : ℕ)
    → order ≤ fuel
    → Fits room entry order (fit_order fuel room entry order)
unfolding fit_order
fit_order-Fits zero room entry order h =
    let e : order ≡ 0 = omega arith in rw e (omega arith, omega arith, λ l. absurd (omega arith))
fit_order-Fits (suc fuel) room entry order h = elim (le-cases room (order * entry)) [
  | inl over ↦
      rw (fit_order, lt→ltb room (order * entry) over)
        (Fits-step room entry order _ over
          (fit_order-Fits fuel room entry (order - 1) (omega arith)))
  | inr fits ↦
      rw (fit_order, ltb-false room (order * entry) fits)
        (fits, omega arith, λ l. absurd (omega arith))
]

lt-div : (a b : ℕ) → 0 < b → a < (a / b + 1) * b
lt-div a b h = omega (arith, div-add-mod a b, mod-lt a h)

-- The start of the loop is not too low: one entry more would not fit.
start_high :
    (page_size attr_length : ℕ)
    → page_size < ((page_size + 4 + 2 * 4) / (8 + attr_length) + 1) * (attr_length + 8) + 12
start_high page_size attr_length =
    omega (arith, lt-div (page_size + 4 + 2 * 4) (8 + attr_length) (omega arith))

-- The order is the number of entries that fit a page beside the count and the two neighbours, and
-- no larger order fits.
pub node_order_lem :
    (page_size attr_length : ℕ)
    → 12 ≤ page_size
    → (node_order page_size attr_length * (attr_length + 8) + 12 ≤ page_size)
      × (page_size < (node_order page_size attr_length + 1) * (attr_length + 8) + 12)
unfolding node_order
node_order_lem page_size attr_length h =
    let start = (page_size + 4 + 2 * 4) / (8 + attr_length) in
    let (fits, le, best) =
      fit_order-Fits start (page_size - 4 - 2 * 4) (attr_length + 8) start (omega arith) in
    (
      omega arith,
      elim (lt-cases (node_order page_size attr_length) start) [
        | inl l ↦ omega (arith, best l)
        | inr (inl e) ↦ rw e (start_high page_size attr_length)
        | inr (inr l) ↦ absurd (omega arith)
      ],
    )

pos_of_lt : (k w p : ℕ) → w + 12 ≤ p → p < (k + 1) * w + 12 → 0 < k
pos_of_lt zero w p h l = absurd (omega arith)
pos_of_lt (suc k) w p h l = omega arith

-- A fresh node passes the code's own check when a page holds an entry.
pub new_node-IsValid :
    {K : Type 0} (page_size attr_length : ℕ) (page : ℤ) (keys : ℕ → K) (rids : ℕ → Rid)
    → attr_length + 20 ≤ page_size
    → (is_valid (new_node page_size attr_length page keys rids) ≡ pos 0)
      × IsValid (new_node page_size attr_length page keys rids)
unfolding is_valid new_node
new_node-IsValid page_size attr_length page keys rids h =
    let lower = node_order_lem page_size attr_length (omega arith) in
    let one : 0 < node_order page_size attr_length =
      pos_of_lt (node_order page_size attr_length) (attr_length + 8) page_size (omega arith)
        lower.1 in
    (ground (arith), record { synced = refl; fits = omega arith })
