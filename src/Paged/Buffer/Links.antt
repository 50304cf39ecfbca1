-- ===== src/Paged/Buffer/Links.antt =====
-- Runs of slots that are linked by `next` and `prev`, as sequences.
pub mod Lists
pub mod Unlink
pub mod Contents
pub mod Victim
use redbase.Base.{
  ℕ, ◌≡◌, ◌≢◌, refl, Option, none, some, List, [], ◌∷◌, ◌++◌, arith, update, sym, ap, ◌∙◌,
  Bool-cases, inl, inr, ==_iff, ◌==◌, subst, subst₂, update_self, update_ne, true, false,
}
use redbase.Paged.Buffer.{Desc, set_next, set_prev}

abbrev pub NotIn : ℕ → List ℕ → Type 0
NotIn s [] = Unit
NotIn s (x ∷ xs) = (s ≢ x) × NotIn s xs

abbrev pub IsDistinct : List ℕ → Type 0
IsDistinct [] = Unit
IsDistinct (x ∷ xs) = NotIn x xs × IsDistinct xs

abbrev pub IsDisjoint : List ℕ → List ℕ → Type 0
IsDisjoint [] ys = Unit
IsDisjoint (x ∷ xs) ys = NotIn x ys × IsDisjoint xs ys

-- The slots `xs` in a row: from `head`, with `before` in front of it, to `last`, with `after` behind.
abbrev pub Run : (ℕ → Desc) → Option ℕ → Option ℕ → List ℕ → Option ℕ → Option ℕ → Type 0
Run t before head [] last after = (head ≡ after) × (last ≡ before)
Run t before head (x ∷ xs) last after =
    (head ≡ some x) × ((t x).prev ≡ before) × Run t (some x) (t x).next xs last after

abbrev pub last_of : ℕ → List ℕ → ℕ
last_of x [] = x
last_of x (y ∷ ys) = last_of y ys

-- The links of the slots `xs` are the same in both tables.
abbrev pub Agree : (ℕ → Desc) → (ℕ → Desc) → List ℕ → Type 0
Agree t u [] = Unit
Agree t u (x ∷ xs) = ((u x).next ≡ (t x).next) × ((u x).prev ≡ (t x).prev) × Agree t u xs

pub Agree-update :
    (t : ℕ → Desc) (s : ℕ) (d : Desc) (xs : List ℕ) → NotIn s xs → Agree t (update t s d) xs
Agree-update t s d [] h = tt
Agree-update t s d (x ∷ xs) (ne, h) = (grind arith, grind arith, Agree-update t s d xs h)

pub Agree-Run :
    (t u : ℕ → Desc) (b h l a : Option ℕ) (xs : List ℕ)
    → Agree t u xs
    → Run t b h xs l a
    → Run u b h xs l a
Agree-Run t u b h l a [] same r = r
Agree-Run t u b h l a (x ∷ xs) (n, p, same) (e, q, r) = (
  e,
  p ∙ q,
  subst (λ m. Run u (some x) m xs l a) (sym n) (Agree-Run t u (some x) _ l a xs same r),
)

pub Run-last :
    (t : ℕ → Desc) (b h l a : Option ℕ) (x : ℕ) (xs : List ℕ)
    → Run t b h (x ∷ xs) l a
    → l ≡ some (last_of x xs)
Run-last t b h l a x [] (e, p, (m, q)) = q
Run-last t b h l a x (y ∷ ys) (e, p, r) = Run-last t (some x) _ l a y ys r

pub Run-append :
    (t : ℕ → Desc) (b h l m k a : Option ℕ) (xs ys : List ℕ)
    → Run t b h xs l m
    → Run t l m ys k a
    → Run t b h (xs ++ ys) k a
Run-append t b h l m k a [] ys (e, q) s = subst₂ (λ m' l'. Run t l' m' ys k a) (sym e) q s
Run-append t b h l m k a (x ∷ xs) ys (e, p, r) s = (e, p, Run-append t (some x) _ l m k a xs ys r s)

-- A run over two parts, taken apart: the last slot of the first and the head of the second.
pub Run-parts :
    (t : ℕ → Desc) (b h k a : Option ℕ) (xs ys : List ℕ)
    → Run t b h (xs ++ ys) k a
    → (l : Option ℕ) × (m : Option ℕ) × Run t b h xs l m × Run t l m ys k a
Run-parts t b h k a [] ys r = (b, h, (refl, refl), r)
Run-parts t b h k a (x ∷ xs) ys (e, p, r) =
    let (l, m, first, second) = Run-parts t (some x) _ k a xs ys r in (l, m, (e, p, first), second)

pub NotIn-last : (s y : ℕ) (ys : List ℕ) → NotIn s (y ∷ ys) → s ≢ last_of y ys
NotIn-last s y [] (ne, _) = ne
NotIn-last s y (z ∷ zs) (_, h) = NotIn-last s z zs h

-- The last slot of a run gets another successor.
pub Run-set_next :
    (t : ℕ → Desc) (b h l a v : Option ℕ) (x : ℕ) (xs : List ℕ)
    → IsDistinct (x ∷ xs)
    → Run t b h (x ∷ xs) l a
    → Run (set_next (last_of x xs) v t) b h (x ∷ xs) l v
Run-set_next t b h l a v x [] d (e, p, (m, q)) = (
  e,
  ap (λ (c : Desc). c.prev) (update_self t x (record (t x) { next = v })) ∙ p,
  (ap (λ (c : Desc). c.next) (update_self t x (record (t x) { next = v })), q),
)
Run-set_next t b h l a v x (y ∷ ys) (fresh, d) (e, p, r) =
    let same : set_next (last_of y ys) v t x ≡ t x =
      update_ne t (last_of y ys) x _ (NotIn-last x y ys fresh) in
    (
      e,
      ap (λ (c : Desc). c.prev) same ∙ p,
      subst (λ m. Run (set_next (last_of y ys) v t) (some x) m (y ∷ ys) l v)
          (ap (λ (c : Desc). c.next) (sym same)) (Run-set_next t (some x) _ l a v y ys d r),
    )

-- The head of a run gets another predecessor.
pub Run-set_prev :
    (t : ℕ → Desc) (b h l a v : Option ℕ) (x : ℕ) (xs : List ℕ)
    → NotIn x xs
    → Run t b h (x ∷ xs) l a
    → Run (set_prev x v t) v h (x ∷ xs) l a
Run-set_prev t b h l a v x xs fresh (e, p, r) =
    let here = update_self t x (record (t x) { prev = v }) in
    (
      e,
      ap (λ (c : Desc). c.prev) here,
      subst (λ m. Run (set_prev x v t) (some x) m xs l a) (ap (λ (c : Desc). c.next) (sym here))
          (Agree-Run t (set_prev x v t) (some x) _ l a xs (Agree-update t x _ xs fresh) r),
    )
