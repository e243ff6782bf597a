-- ===== src/HttpsPath/Service/Params.antt =====
-- mandatoryKeys and alpnIDs decode exactly the encodings of RFC 9460.
use reachrun.Prelude.{
  ℕ, zero, suc, ◌+◌, ◌*◌, ◌/◌, ◌%◌, ◌≤◌, ◌<◌, false, ◌||◌, Option, none, some, List, [], ◌∷◌, ◌++◌,
  ◌≡◌, ◌↔◌, inl, inr, refl, ap, arith, ltb, ◌==◌, Bytes, length, length-append, take, drop,
  is_empty, All, IfSome, Bool-cases, length-take,
}
use reachrun.HttpsPath.Service.{mandatory_loop, mandatory_keys, alpn_loop, alpn_ids}

-- Two bytes for each key, the high one first.
abbrev pub encode_keys : List ℕ → Bytes
encode_keys [] = []
encode_keys (k ∷ ks) = k / 256 ∷ k % 256 ∷ encode_keys ks

-- Keys that rise strictly from `previous` on.
abbrev pub Rising : Option ℕ → List ℕ → Type 0
Rising previous [] = Unit
Rising previous (k ∷ ks) = IfSome (λ p. p < k) Unit previous × Rising (some k) ks

mandatory_loop_sound :
    (previous : Option ℕ) (v : Bytes)
    → All (λ b. b < 256) v
    → IfSome (λ ks. (v ≡ encode_keys ks) × Rising previous ks) Unit (mandatory_loop previous v)
unfolding mandatory_loop
mandatory_loop_sound previous [] h = (refl, tt)
mandatory_loop_sound previous (x ∷ []) h = tt
mandatory_loop_sound none (hi ∷ lo ∷ rest) h =
    ground (arith, mandatory_loop_sound (some (hi * 256 + lo)) rest)
mandatory_loop_sound (some p) (hi ∷ lo ∷ rest) h =
    ground (arith, mandatory_loop_sound (some (hi * 256 + lo)) rest)

mandatory_loop_complete :
    (previous : Option ℕ) (ks : List ℕ)
    → Rising previous ks
    → mandatory_loop previous (encode_keys ks) ≡ some ks
unfolding mandatory_loop
mandatory_loop_complete previous [] h = refl
mandatory_loop_complete none (k ∷ ks) h =
    let back : k / 256 * 256 + k % 256 ≡ k = omega arith in
    ground (arith, mandatory_loop_complete (some k) ks h.1)
mandatory_loop_complete (some p) (k ∷ ks) h =
    let back : k / 256 * 256 + k % 256 ≡ k = omega arith in
    ground (arith, mandatory_loop_complete (some k) ks h.1)

length-encode_keys : (ks : List ℕ) → length (encode_keys ks) ≡ 2 * length ks
length-encode_keys [] = omega arith
length-encode_keys (k ∷ ks) = omega (arith, length-encode_keys ks)

mandatory_sound :
    (v : Bytes) (ks : List ℕ)
    → All (λ b. b < 256) v
    → mandatory_keys v ≡ some ks
    → (v ≡ encode_keys ks) × Rising none ks × (is_empty ks ≡ false)
unfolding mandatory_keys
mandatory_sound [] ks h e = cc
mandatory_sound (x ∷ v) [] h e = ground (arith, mandatory_loop_sound none (x ∷ v) h)
mandatory_sound (x ∷ v) (k ∷ ks) h e = ground (arith, mandatory_loop_sound none (x ∷ v) h)

mandatory_complete :
    (k : ℕ) (ks : List ℕ)
    → Rising none (k ∷ ks)
    → mandatory_keys (encode_keys (k ∷ ks)) ≡ some (k ∷ ks)
unfolding mandatory_keys
mandatory_complete k ks h =
    ground (arith, mandatory_loop_complete none (k ∷ ks) h, length-encode_keys (k ∷ ks))

-- `mandatoryKeys` accepts a value exactly when it is the encoding of a list of keys that is not empty
-- and rises strictly, and returns that list.
pub mandatory_keys_iff :
    (v : Bytes) (ks : List ℕ)
    → All (λ b. b < 256) v
    → (mandatory_keys v ≡ some ks) ↔ ((v ≡ encode_keys ks) × Rising none ks × (is_empty ks ≡ false))
mandatory_keys_iff v [] h = (mandatory_sound v [] h, λ e. cc (e.2))
mandatory_keys_iff v (k ∷ ks) h =
    (mandatory_sound v (k ∷ ks) h, λ e. rw e.0 (mandatory_complete k ks e.1))

abbrev pub encode_ids : List Bytes → Bytes
encode_ids [] = []
encode_ids (id ∷ ids) = length id ∷ (id ++ encode_ids ids)

abbrev pub NotEmpty : Bytes → Type 0
NotEmpty id = is_empty id ≡ false

take-append-drop : (n : ℕ) (xs : Bytes) → take n xs ++ drop n xs ≡ xs
take-append-drop zero xs = refl
take-append-drop (suc n) [] = refl
take-append-drop (suc n) (x ∷ xs) = ap (λ t. x ∷ t) (take-append-drop n xs)

take-append : (xs ys : Bytes) → take (length xs) (xs ++ ys) ≡ xs
take-append [] ys = refl
take-append (x ∷ xs) ys = ap (λ t. x ∷ t) (take-append xs ys)

drop-append : (xs ys : Bytes) → drop (length xs) (xs ++ ys) ≡ ys
drop-append [] ys = refl
drop-append (x ∷ xs) ys = drop-append xs ys

is_empty-length : (xs : Bytes) → 0 < length xs → is_empty xs ≡ false
is_empty-length [] h = absurd (omega arith)
is_empty-length (x ∷ xs) h = refl

alpn_loop_sound :
    (f : ℕ) (v : Bytes)
    → IfSome (λ ids. (v ≡ encode_ids ids) × All NotEmpty ids) Unit (alpn_loop f v)
unfolding alpn_loop
alpn_loop_sound f [] = (refl, tt)
alpn_loop_sound zero (n ∷ rest) = tt
alpn_loop_sound (suc f) (n ∷ rest) = elim (Bool-cases (n == 0 || ltb (length rest) n)) [
  | inl bad ↦ ground arith
  | inr good ↦
      let size : length (take n rest) ≡ n = ground (arith, length-take n rest) in
      ground (
        arith,
        alpn_loop_sound f (drop n rest),
        take-append-drop n rest,
        is_empty-length (take n rest),
      )
]

alpn_loop_complete :
    (f : ℕ) (ids : List Bytes)
    → All NotEmpty ids
    → length (encode_ids ids) ≤ f
    → alpn_loop f (encode_ids ids) ≡ some ids
unfolding alpn_loop
alpn_loop_complete f [] h k = refl
alpn_loop_complete zero (id ∷ ids) h k = absurd (omega arith)
alpn_loop_complete (suc f) ([] ∷ ids) h k = cc (h.0)
alpn_loop_complete (suc f) ((x ∷ id) ∷ ids) h k =
    let whole = length-append (x ∷ id) (encode_ids ids) in
    ground (
      arith,
      whole,
      take-append id (encode_ids ids),
      drop-append id (encode_ids ids),
      alpn_loop_complete f ids h.1,
    )

alpn_sound :
    (v : Bytes) (ids : List Bytes)
    → alpn_ids v ≡ some ids
    → (v ≡ encode_ids ids) × All NotEmpty ids × (is_empty ids ≡ false)
unfolding alpn_ids
alpn_sound [] ids e = cc
alpn_sound (n ∷ v) [] e = ground (arith, alpn_loop_sound (length (n ∷ v)) (n ∷ v))
alpn_sound (n ∷ v) (id ∷ ids) e = ground (arith, alpn_loop_sound (length (n ∷ v)) (n ∷ v))

-- `alpnIDs` accepts a value exactly when it is the encoding of a list of identifiers, each with its
-- length in front and none empty, that is not empty itself, and returns that list.
pub alpn_ids_iff :
    (v : Bytes) (ids : List Bytes)
    → (alpn_ids v ≡ some ids) ↔ ((v ≡ encode_ids ids) × All NotEmpty ids × (is_empty ids ≡ false))
alpn_ids_iff v [] = (alpn_sound v [], λ e. cc (e.2))
alpn_ids_iff v (id ∷ ids) = (
  alpn_sound v (id ∷ ids),
  λ e. rw e.0 (
      unfold alpn_ids in
      alpn_loop_complete (length (encode_ids (id ∷ ids))) (id ∷ ids) e.1 (omega arith)),
)
