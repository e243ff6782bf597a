-- ===== src/Prelude/Text.antt =====
-- Go strings and byte slices as lists of byte values, with the routines of `bytes` and `strings`
-- that the program calls on them.
use Prim.Native.Nat.{ℕ, zero, suc, ◌+◌, ◌/◌, ◌%◌}
use Prim.Native.Char.{code}
use Prim.Native.String.{String}
use mathlib.Core.Path.{◌≡◌, refl}
use mathlib.Core.Logic.{◌↔◌, ◌≢◌}
use mathlib.Core.Bool.{Bool, true, false, ◌&&◌, ◌||◌}
use mathlib.Core.List.{List, [], ◌∷◌, ◌++◌}
use mathlib.Core.Option.{Option, none, some}
use native.Mathlib.Omega.{arith}
use reachrun.Prelude.Tests.{ltb, ◌==◌, if◌then◌else◌, ==_refl}
use reachrun.Prelude.Lists.{All, IfSome, split_last}

abbrev pub Bytes : Type 0
Bytes = List ℕ

-- The code points of a literal, its bytes where it is ASCII.
abbrev pub codes : String → Bytes
codes String.[] = []
codes (String.◌∷◌ c s) = code c ∷ codes s

-- `a == b` on strings, `bytes.Equal`.
unfoldable pub bytes_eq : Bytes → Bytes → Bool
bytes_eq [] [] = true
bytes_eq (x ∷ xs) (y ∷ ys) = (x == y) && bytes_eq xs ys
bytes_eq _ _ = false

pub bytes_eq_iff : (a b : Bytes) → (bytes_eq a b ≡ true) ↔ (a ≡ b)
unfolding bytes_eq
bytes_eq_iff (x ∷ a) (y ∷ b) = ground (arith, bytes_eq_iff a b)
bytes_eq_iff _ _ = ground arith

pub bytes_eq_refl : (a : Bytes) → bytes_eq a a ≡ true
bytes_eq_refl a = (bytes_eq_iff a a).1 refl

-- `bytes.HasPrefix(text, prefix)` and what follows the prefix.
unfoldable pub strip_prefix : Bytes → Bytes → Option Bytes
strip_prefix [] text = some text
strip_prefix (p ∷ ps) [] = none
strip_prefix (p ∷ ps) (x ∷ xs) = if p == x then strip_prefix ps xs else none

unfoldable pub has_prefix : Bytes → Bytes → Bool
unfolding strip_prefix
has_prefix prefix text = elim (strip_prefix prefix text) [ none ↦ false | some _ ↦ true ]

-- `strings.IndexByte`, as the text before the byte and the text behind it.
unfoldable pub cut : ℕ → Bytes → Option (Bytes × Bytes)
cut b [] = none
cut b (x ∷ xs) =
    if x == b
    then some ([], xs)
    else elim (cut b xs) [ none ↦ none | some (before, after) ↦ some (x ∷ before, after) ]

pub strip_prefix-append : (p xs : Bytes) → strip_prefix p (p ++ xs) ≡ some xs
unfolding strip_prefix
strip_prefix-append [] xs = refl
strip_prefix-append (c ∷ p) xs = rw (==_refl c) (strip_prefix-append p xs)

append_of_strip_prefix' :
    (p text : Bytes) → IfSome (λ xs. text ≡ p ++ xs) Unit (strip_prefix p text)
unfolding strip_prefix
append_of_strip_prefix' [] text = refl
append_of_strip_prefix' (c ∷ p) [] = tt
append_of_strip_prefix' (c ∷ p) (x ∷ text) = ground (arith, append_of_strip_prefix' p text)

pub append_of_strip_prefix :
    (p text : Bytes) {xs : Bytes} → strip_prefix p text ≡ some xs → text ≡ p ++ xs
append_of_strip_prefix p text h = rw h at (append_of_strip_prefix' p text)

pub cut-append :
    (b : ℕ) (xs ys : Bytes) → All (λ x. x ≢ b) xs → cut b (xs ++ b ∷ ys) ≡ some (xs, ys)
unfolding cut
cut-append b [] ys h = ground arith
cut-append b (x ∷ xs) ys h = ground (arith, cut-append b xs ys)

pub cut-none : (b : ℕ) (xs : Bytes) → All (λ x. x ≢ b) xs → cut b xs ≡ none
unfolding cut
cut-none b [] h = refl
cut-none b (x ∷ xs) h = ground (arith, cut-none b xs)

-- What `cut` finds: the text round the first `b`, or no `b` at all.
pub cut-first :
    (b : ℕ) (text : Bytes)
    → IfSome
        (λ r. (text ≡ r.0 ++ b ∷ r.1) × All (λ x. x ≢ b) r.0)
        (All (λ x. x ≢ b) text)
        (cut b text)
unfolding cut
cut-first b [] = tt
cut-first b (x ∷ text) = ground (arith, cut-first b text)

-- Membership of a string in a set kept as a list.
unfoldable pub contains : Bytes → List Bytes → Bool
contains s [] = false
contains s (t ∷ ts) = bytes_eq t s || contains s ts

-- `%d` of a number, with fuel for its digits.
decimal_digits : ℕ → ℕ → Bytes
decimal_digits zero n = []
decimal_digits (suc f) n =
    let front = decimal_digits f (n / 10) in
    if ltb n 10 then (b'0' + n) ∷ [] else front ++ (b'0' + n % 10) ∷ []

unfoldable pub decimal : ℕ → Bytes
unfolding decimal_digits
decimal n = decimal_digits (n + 1) n

-- `strings.TrimSuffix` of one byte.
unfoldable pub trim_suffix : ℕ → Bytes → Bytes
unfolding split_last
trim_suffix b text = elim (split_last text) [
  | none ↦ text
  | some (front, last) ↦ if last == b then front else text
]

-- A Go map from strings to strings: the first entry of a key is its value.
abbrev pub Targets : Type 0
Targets = List (Bytes × Bytes)

unfoldable pub find : Bytes → Targets → Option Bytes
find k [] = none
find k ((j, v) ∷ m) = if bytes_eq j k then some v else find k m
