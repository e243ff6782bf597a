-- ===== src/HttpsPath/Service/Keys.antt =====
-- normalizedKeys gives the keys in strictly rising order, each once.
use reachrun.Prelude.{
  ℕ, ◌≤◌, false, Option, none, some, List, [], ◌∷◌, ◌≡◌, ◌↔◌, inl, inr, refl, arith, ◌==◌, is_empty,
  All, IfSome, Bool-cases, sort_by, Sorted, sort_by-Sorted, sort_by_iff, sort_by-ne-nil, subst,
}
use reachrun.HttpsPath.Service.{distinct_keys, normalized_keys}
use reachrun.HttpsPath.Service.Params.{Rising}

distinct_keys-Rising :
    (last : Option ℕ) (keys : List ℕ)
    → IfSome (λ l. All (λ k. l ≤ k) keys) Unit last
    → Sorted (λ k. k) keys
    → Rising last (distinct_keys last keys)
unfolding distinct_keys
distinct_keys-Rising last [] b s = tt
distinct_keys-Rising none (k ∷ keys) b s = (tt, distinct_keys-Rising (some k) keys s.0 s.1)
distinct_keys-Rising (some l) (k ∷ keys) b s = elim (Bool-cases (l == k)) [
  | inl same ↦ ground (arith, distinct_keys-Rising (some k) keys s.0 s.1)
  | inr other ↦ ground (arith, distinct_keys-Rising (some k) keys s.0 s.1)
]

distinct_keys_iff :
    (P : ℕ → Type 0) (last : Option ℕ) (keys : List ℕ)
    → IfSome P Unit last
    → All P (distinct_keys last keys) ↔ All P keys
unfolding distinct_keys
distinct_keys_iff P last [] h = (λ a. tt, λ a. tt)
distinct_keys_iff P none (k ∷ keys) h = (
  λ a. (a.0, (distinct_keys_iff P (some k) keys a.0).0 a.1),
  λ a. (a.0, (distinct_keys_iff P (some k) keys a.0).1 a.1),
)
distinct_keys_iff P (some l) (k ∷ keys) h = elim (Bool-cases (l == k)) [
  | inl same ↦
      let e : l ≡ k = ground arith in
      let pk = subst P e h in
      let rest = distinct_keys_iff P (some k) keys pk in
      rw same (λ a. (pk, rest.0 a), λ a. rest.1 a.1)
  | inr other ↦ rw other (
    λ a. (a.0, (distinct_keys_iff P (some k) keys a.0).0 a.1),
    λ a. (a.0, (distinct_keys_iff P (some k) keys a.0).1 a.1),
  )
]

distinct_keys-ne-nil :
    (keys : List ℕ) → is_empty keys ≡ false → is_empty (distinct_keys none keys) ≡ false
unfolding distinct_keys
distinct_keys-ne-nil [] h = h
distinct_keys-ne-nil (k ∷ keys) h = refl

pub normalized_keys-ne-nil :
    (keys : List ℕ) → is_empty keys ≡ false → is_empty (normalized_keys keys) ≡ false
unfolding normalized_keys
normalized_keys-ne-nil keys h =
    distinct_keys-ne-nil (sort_by (λ k. k) keys) (sort_by-ne-nil (λ k. k) keys h)

-- `normalizedKeys` returns strictly rising keys, and a property holds of all of them exactly when it
-- holds of all keys given: they are the same keys.
pub normalized_keys-Rising :
    (keys : List ℕ)
    → Rising none (normalized_keys keys)
      × ((P : ℕ → Type 0) → All P (normalized_keys keys) ↔ All P keys)
unfolding normalized_keys
normalized_keys-Rising keys = (
  distinct_keys-Rising none (sort_by (λ k. k) keys) tt (sort_by-Sorted (λ k. k) keys),
  λ P.
      let d = distinct_keys_iff P none (sort_by (λ k. k) keys) tt in
      let s = sort_by_iff (λ k. k) P keys in (λ a. s.0 (d.0 a), λ a. d.1 (s.1 a)),
)
