-- ===== src/Prelude/Results.antt =====
-- Go's `(value, error)` pairs, where a caller reads the value only beside a nil error.
use mathlib.Core.Path.{◌≡◌, refl}
use mathlib.Core.Logic.{◌⊎◌, inl, inr}
use mathlib.Core.Bool.{Bool, true, false}
use mathlib.Core.List.{List, [], ◌∷◌}

pub data Result {ℓ} (E A : Type ℓ) : Type ℓ where
  ok : A → Result E A
  err : E → Result E A

infixl 5 ◌>>=◌ ◌>>◌
abbrev pub ◌>>=◌ {ℓ} : {E A B : Type ℓ} → Result E A → (A → Result E B) → Result E B
ok a >>= f = f a
err e >>= f = err e

abbrev pub ◌>>◌ {ℓ} : {E A B : Type ℓ} → Result E A → Result E B → Result E B
m >> k = m >>= λ _. k

pub bind-eq-ok {ℓ} :
    {E A B : Type ℓ} (m : Result E A) (f : A → Result E B) {b : B}
    → (m >>= f) ≡ ok b
    → (a : A) × (m ≡ ok a) × (f a ≡ ok b)
bind-eq-ok (ok a) f h = (a, refl, h)
bind-eq-ok (err e) f h = cc

-- A check that returns an error where its test holds.
abbrev pub reject_if : {E : Type 0} → Bool → E → Result E Unit
reject_if true why = err why
reject_if false why = ok tt

-- A check over a list, up to the first error.
unfoldable pub check_all : {E A : Type 0} → (A → Result E Unit) → List A → Result E Unit
check_all check [] = ok tt
check_all check (x ∷ xs) = check x >> check_all check xs

pub Result-cases :
    {E A : Type 0} (r : Result E A) → ((a : A) × (r ≡ ok a)) ⊎ ((w : E) × (r ≡ err w))
Result-cases (ok a) = inl (a, refl)
Result-cases (err w) = inr (w, refl)
