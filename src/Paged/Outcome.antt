-- ===== src/Paged/Outcome.antt =====
-- How a function of the component ends: with the code 0 and a value, or with another code; both
-- leave a state behind. `fault` is undefined behaviour, such as an array index below 0.
use redbase.Base.{ℤ, ◌≡◌, refl}

pub data Outcome (S A : Type 0) : Type 0 where
  ok : S → A → Outcome S A
  err : S → ℤ → Outcome S A
  fault : Outcome S A

abbrev pub Op : Type 0 → Type 0 → Type 0
Op S A = S → Outcome S A

-- `if ((rc = m)) return rc;` before the rest.
infixl 5 ◌>>=◌ ◌>>◌
abbrev pub ◌>>=◌ : {S A B : Type 0} → Op S A → (A → Op S B) → Op S B
◌>>=◌ m f s = elim (m s) [ ok s' a ↦ f a s' | err s' c ↦ err s' c | fault ↦ fault ]

abbrev pub ◌>>◌ : {S B : Type 0} → Op S (Unit {0}) → Op S B → Op S B
m >> k = m >>= λ _. k

-- The clean-up that the code makes before it returns an error of `m`.
abbrev pub on_error : {S A : Type 0} → (S → S) → Op S A → Op S A
on_error undo m s = elim (m s) [ ok s' a ↦ ok s' a | err s' c ↦ err (undo s') c | fault ↦ fault ]

abbrev pub pure : {S A : Type 0} → A → Op S A
pure a s = ok s a

abbrev pub raise : {S A : Type 0} → ℤ → Op S A
raise c s = err s c

-- A function that always returns 0.
abbrev pub modify : {S : Type 0} → (S → S) → Op S (Unit {0})
modify f s = ok (f s) tt

-- What holds of a bind: a fact of the first outcome that the rest turns into another.
bind_go :
    {S A B : Type 0} (P : Outcome S A → Type 0) (Q : Outcome S B → Type 0) (f : A → Op S B)
    (o : Outcome S A)
    → P o
    → ((s : S) (a : A) → P (ok s a) → Q (f a s))
    → ((s : S) (c : ℤ) → P (err s c) → Q (err s c))
    → (P fault → Q fault)
    → Q (elim o [ ok s' a ↦ f a s' | err s' c ↦ err s' c | fault ↦ fault ])
bind_go P Q f (ok s a) p good bad broken = good s a p
bind_go P Q f (err s c) p good bad broken = bad s c p
bind_go P Q f fault p good bad broken = broken p

pub bind_lem :
    {S A B : Type 0} (P : Outcome S A → Type 0) (Q : Outcome S B → Type 0) (m : Op S A)
    (f : A → Op S B) (s : S)
    → P (m s)
    → ((s' : S) (a : A) → P (ok s' a) → Q (f a s'))
    → ((s' : S) (c : ℤ) → P (err s' c) → Q (err s' c))
    → (P fault → Q fault)
    → Q ((m >>= f) s)
bind_lem P Q m f s = bind_go P Q f (m s)

-- A bind after a success, and after an error.
pub bind_ok :
    {S A B : Type 0} (m : Op S A) (f : A → Op S B) (s t : S) (a : A)
    → m s ≡ ok t a
    → (m >>= f) s ≡ f a t
bind_ok m f s t a e = rw (e, ◌>>=◌) refl

pub bind_err :
    {S A B : Type 0} (m : Op S A) (f : A → Op S B) (s t : S) (c : ℤ)
    → m s ≡ err t c
    → (m >>= f) s ≡ err t c
bind_err m f s t c e = rw (e, ◌>>=◌) refl
