-- ===== src/Prelude/Sort.antt =====
-- Stable sorting by a key, the result of `sort.SliceStable`; and on equal elements, which no order
-- tells apart, that of `sort.Slice`.
use Prim.Native.Nat.{ℕ, ◌≤◌}
use mathlib.Core.Path.{◌≡◌, refl}
use mathlib.Core.Bool.{false}
use mathlib.Core.List.{List, [], ◌∷◌}
use mathlib.Core.Logic.{◌↔◌, inl, inr}
use native.Mathlib.Omega.{arith}
use reachrun.Prelude.Tests.{leb, if◌then◌else◌, Bool-cases}
use reachrun.Prelude.Lists.{All, is_empty}

module _ {ℓ} {A : Type ℓ} (key : A → ℕ) where
  unfoldable pub insert_by : A → List A → List A
  insert_by x [] = x ∷ []
  insert_by x (y ∷ ys) =
      let rest = insert_by x ys in if leb (key x) (key y) then x ∷ y ∷ ys else y ∷ rest

  unfoldable pub sort_by : List A → List A
  unfolding insert_by
  sort_by [] = []
  sort_by (x ∷ xs) = insert_by x (sort_by xs)

  -- Each key is at most the keys behind it.
  abbrev pub Sorted : List A → Type 0
  Sorted [] = Unit
  Sorted (x ∷ xs) = All (λ y. key x ≤ key y) xs × Sorted xs

  insert_by-All {κ} :
      (P : A → Type κ) (x : A) (xs : List A) → P x → All P xs → All P (insert_by x xs)
  unfolding insert_by
  insert_by-All P x [] p h = (p, tt)
  insert_by-All P x (y ∷ ys) p h = elim (Bool-cases (leb (key x) (key y))) [
    | inl b ↦ rw b (p, h)
    | inr b ↦ rw b (h.0, insert_by-All P x ys p h.1)
  ]

  pub sort_by-All {κ} : (P : A → Type κ) (xs : List A) → All P xs → All P (sort_by xs)
  unfolding sort_by
  sort_by-All P [] h = tt
  sort_by-All P (x ∷ xs) h = insert_by-All P x (sort_by xs) h.0 (sort_by-All P xs h.1)

  All-weaken {κ μ} :
      (P : A → Type κ) (Q : A → Type μ) (xs : List A) → ((x : A) → P x → Q x) → All P xs → All Q xs
  All-weaken P Q [] f h = tt
  All-weaken P Q (x ∷ xs) f h = (f x h.0, All-weaken P Q xs f h.1)

  insert_by-Sorted : (x : A) (xs : List A) → Sorted xs → Sorted (insert_by x xs)
  unfolding insert_by
  insert_by-Sorted x [] h = (tt, tt)
  insert_by-Sorted x (y ∷ ys) h = elim (Bool-cases (leb (key x) (key y))) [
    | inl b ↦
        let le : key x ≤ key y = ground arith in
        rw b (
          (le, All-weaken (λ z. key y ≤ key z) (λ z. key x ≤ key z) ys (λ z k. omega arith) h.0),
          h,
        )
    | inr b ↦
        let le : key y ≤ key x = ground arith in
        rw b (insert_by-All (λ z. key y ≤ key z) x ys le h.0, insert_by-Sorted x ys h.1)
  ]

  pub sort_by-Sorted : (xs : List A) → Sorted (sort_by xs)
  unfolding sort_by
  sort_by-Sorted [] = tt
  sort_by-Sorted (x ∷ xs) = insert_by-Sorted x (sort_by xs) (sort_by-Sorted xs)

  insert_by_iff {κ} :
      (P : A → Type κ) (x : A) (xs : List A) → All P (insert_by x xs) ↔ (P x × All P xs)
  unfolding insert_by
  insert_by_iff P x [] = (λ h. h, λ h. h)
  insert_by_iff P x (y ∷ ys) = elim (Bool-cases (leb (key x) (key y))) [
    | inl b ↦ rw b (λ h. h, λ h. h)
    | inr b ↦
        let rest = insert_by_iff P x ys in
        rw b (λ h. ((rest.0 h.1).0, (h.0, (rest.0 h.1).1)), λ h. (h.1.0, rest.1 (h.0, h.1.1)))
  ]

  -- The sorted list has the same elements.
  pub sort_by_iff {κ} : (P : A → Type κ) (xs : List A) → All P (sort_by xs) ↔ All P xs
  unfolding sort_by
  sort_by_iff P [] = (λ h. h, λ h. h)
  sort_by_iff P (x ∷ xs) =
      let rest = sort_by_iff P xs in
      let front = insert_by_iff P x (sort_by xs) in
      (λ h. ((front.0 h).0, rest.0 (front.0 h).1), λ h. front.1 (h.0, rest.1 h.1))

  insert_by-ne-nil : (x : A) (xs : List A) → is_empty (insert_by x xs) ≡ false
  unfolding insert_by
  insert_by-ne-nil x [] = refl
  insert_by-ne-nil x (y ∷ ys) = elim (Bool-cases (leb (key x) (key y))) [
    | inl b ↦ rw b refl
    | inr b ↦ rw b refl
  ]

  pub sort_by-ne-nil : (xs : List A) → is_empty xs ≡ false → is_empty (sort_by xs) ≡ false
  unfolding sort_by
  sort_by-ne-nil [] h = h
  sort_by-ne-nil (x ∷ xs) h = insert_by-ne-nil x (sort_by xs)
