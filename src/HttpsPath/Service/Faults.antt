-- ===== src/HttpsPath/Service/Faults.antt =====
-- The keys that evaluateBinding names, against a description of the parameters that does not use the
-- code's tests: which value a key has, which values are well formed, and which keys are at fault.
use reachrun.Prelude.{
  ℕ, ◌%◌, ◌<◌, true, false, Option, none, some, List, [], ◌∷◌, ◌++◌, ◌≡◌, ◌↔◌, ◌⊎◌, inl, inr, refl,
  ap, sym, ◌∙◌, subst, arith, ◌==◌, if◌then◌else◌, Bytes, length, is_empty, All, IfSome, Bool-cases,
  Option-cases, decode_hex, hex_value,
}
use reachrun.Dns.Types.{ServiceParameter}
use reachrun.HttpsPath.Service.{
  normalized_keys, value_of, is_none, malformed_value, mandatory_keys, alpn_ids, Parsed,
  parse_param, parse_params,
}
use reachrun.HttpsPath.Service.Params.{
  Rising, encode_keys, encode_ids, NotEmpty, mandatory_keys_iff, alpn_ids_iff,
}
use reachrun.HttpsPath.Service.Keys.{normalized_keys-Rising}
use reachrun.HttpsPath.Service.Usable.{Fits}

abbrev pub Listed : ℕ → List ℕ → Type 0
Listed k [] = ⊥
Listed k (x ∷ xs) = (x ≡ k) ⊎ Listed k xs

pub Listed-append : (k : ℕ) (xs ys : List ℕ) → Listed k (xs ++ ys) ↔ (Listed k xs ⊎ Listed k ys)
Listed-append k [] ys = (λ h. inr h, λ h. elim h [ inl x ↦ elim x [ ] | inr y ↦ y ])
Listed-append k (x ∷ xs) ys = ground (arith, Listed-append k xs ys)

pub All-at : (P : ℕ → Type 0) (k : ℕ) (xs : List ℕ) → All P xs → Listed k xs → P k
All-at P k [] all listed = elim listed [ ]
All-at P k (x ∷ xs) all (inl e) = subst P e all.0
All-at P k (x ∷ xs) all (inr h) = All-at P k xs all.1 h

All-map : (P Q : ℕ → Type 0) (xs : List ℕ) → ((k : ℕ) → P k → Q k) → All P xs → All Q xs
All-map P Q [] f h = tt
All-map P Q (x ∷ xs) f h = (f x h.0, All-map P Q xs f h.1)

All-Listed : (xs : List ℕ) → All (λ x. Listed x xs) xs
All-Listed [] = tt
All-Listed (x ∷ xs) = (
  inl refl,
  All-map (λ k. Listed k xs) (λ k. Listed k (x ∷ xs)) xs (λ k h. inr h) (All-Listed xs),
)

-- `normalizedKeys` keeps the keys.
pub normalized_keys-Listed :
    (k : ℕ) (keys : List ℕ) → Listed k (normalized_keys keys) ↔ Listed k keys
normalized_keys-Listed k keys =
    let same = (normalized_keys-Rising keys).1 in
    (
      All-at (λ x. Listed x keys) k (normalized_keys keys)
          ((same (λ x. Listed x keys)).1 (All-Listed keys)),
      All-at (λ x. Listed x (normalized_keys keys)) k keys
          ((same (λ x. Listed x (normalized_keys keys))).0 (All-Listed (normalized_keys keys))),
    )

-- The value of a key: the last one that is hexadecimal.
abbrev pub later : Option Bytes → Option Bytes → Option Bytes
later (some v) first = some v
later none first = first

abbrev pub given : List ServiceParameter → ℕ → Option Bytes
given [] key = none
given (p ∷ ps) key = later (given ps key) (if p.key == key then decode_hex p.value_hex else none)

later_assoc : (a b c : Option Bytes) → later (later a b) c ≡ later a (later b c)
later_assoc (some v) b c = refl
later_assoc none b c = refl

parse_param-given :
    (p : ServiceParameter) (s : Parsed) (key : ℕ)
    → value_of key (parse_param p s).values
      ≡ later (if p.key == key then decode_hex p.value_hex else none) (value_of key s.values)
unfolding parse_param value_of
parse_param-given p s key = elim (Option-cases (decode_hex p.value_hex)) [
  | inl e ↦ elim (Bool-cases (p.key == key)) [
    | inl same ↦ rw (parse_param, e, same) refl
    | inr other ↦ rw (parse_param, e, other) refl
  ]
  | inr (v, e) ↦ elim (Bool-cases (p.key == key)) [
    | inl same ↦ rw (parse_param, e, value_of, same) refl
    | inr other ↦ rw (parse_param, e, value_of, other) refl
  ]
]

pub parse_params-given :
    (ps : List ServiceParameter) (s : Parsed) (key : ℕ)
    → value_of key (parse_params ps s).values ≡ later (given ps key) (value_of key s.values)
unfolding parse_params
parse_params-given [] s key = refl
parse_params-given (p ∷ ps) s key =
    parse_params-given ps (parse_param p s) key
    ∙ ap (later (given ps key)) (parse_param-given p s key)
    ∙ sym (later_assoc (given ps key) _ (value_of key s.values))

-- What a value must be for its key, after RFC 9460: rising keys, identifiers, nothing, a port, or
-- addresses of 4 or 16 bytes.
pub record IsWellFormed (key : ℕ) (v : Bytes) : Type 0 where
  pub mandatory :
      key ≡ 0 → (ks : List ℕ) × (v ≡ encode_keys ks) × Rising none ks × (is_empty ks ≡ false)
  pub alpn :
      key ≡ 1
      → (ids : List Bytes) × (v ≡ encode_ids ids) × All NotEmpty ids × (is_empty ids ≡ false)
  pub no_default_alpn : key ≡ 2 → v ≡ []
  pub port : key ≡ 3 → length v ≡ 2
  pub ipv4_hint : key ≡ 4 → (is_empty v ≡ false) × (length v % 4 ≡ 0)
  pub ipv6_hint : key ≡ 6 → (is_empty v ≡ false) × (length v % 16 ≡ 0)

hex_value-fits : (c : ℕ) → IfSome (λ n. n < 16) Unit (hex_value c)
unfolding hex_value
hex_value-fits c = ground arith

pub decode_hex-fits : (text : Bytes) → IfSome (λ v. All (λ b. b < 256) v) Unit (decode_hex text)
unfolding decode_hex
decode_hex-fits [] = tt
decode_hex-fits (x ∷ []) = tt
decode_hex-fits (x ∷ y ∷ rest) =
    ground (arith, hex_value-fits x, hex_value-fits y, decode_hex-fits rest)

mandatory_keys-reads :
    (v : Bytes)
    → All (λ b. b < 256) v
    → (is_none (mandatory_keys v) ≡ false)
      ↔ ((ks : List ℕ) × (v ≡ encode_keys ks) × Rising none ks × (is_empty ks ≡ false))
mandatory_keys-reads v bytes = (
  λ h. elim (Option-cases (mandatory_keys v)) [
    | inl e ↦ cc (rw e at h)
    | inr (ks, e) ↦ let is = (mandatory_keys_iff v ks bytes).0 e in (ks, is.0, is.1, is.2)
  ],
  λ (ks, a, b, c). rw ((mandatory_keys_iff v ks bytes).1 (a, b, c)) refl,
)

alpn_ids-reads :
    (v : Bytes)
    → (is_none (alpn_ids v) ≡ false)
      ↔ ((ids : List Bytes) × (v ≡ encode_ids ids) × All NotEmpty ids × (is_empty ids ≡ false))
alpn_ids-reads v = (
  λ h. elim (Option-cases (alpn_ids v)) [
    | inl e ↦ cc (rw e at h)
    | inr (ids, e) ↦ let is = (alpn_ids_iff v ids).0 e in (ids, is.0, is.1, is.2)
  ],
  λ (ids, a, b, c). rw ((alpn_ids_iff v ids).1 (a, b, c)) refl,
)

malformed_value-tests :
    (key : ℕ) (v : Bytes)
    → (malformed_value key v ≡ false) ↔ (
        (key ≡ 0 → is_none (mandatory_keys v) ≡ false)
        × (key ≡ 1 → is_none (alpn_ids v) ≡ false)
        × (key ≡ 2 → is_empty v ≡ true)
        × (key ≡ 3 → length v ≡ 2)
        × (key ≡ 4 → (is_empty v ≡ false) × (length v % 4 ≡ 0))
        × (key ≡ 6 → (is_empty v ≡ false) × (length v % 16 ≡ 0)))
unfolding malformed_value
malformed_value-tests key v = ground arith

is_empty-nil : (v : Bytes) → (is_empty v ≡ true) ↔ (v ≡ [])
is_empty-nil [] = (λ h. refl, λ h. refl)
is_empty-nil (x ∷ v) = (λ h. cc h, λ h. cc h)

malformed_value_iff :
    (key : ℕ) (v : Bytes)
    → All (λ b. b < 256) v
    → (malformed_value key v ≡ false) ↔ IsWellFormed key v
malformed_value_iff key v bytes =
    let tests = malformed_value-tests key v in
    let m = mandatory_keys-reads v bytes in
    let a = alpn_ids-reads v in
    let n = is_empty-nil v in
    (
      λ h.
          let (t0, t1, t2, t3, t4, t6) = tests.0 h in
          record {
            mandatory = λ e. m.0 (t0 e);
            alpn = λ e. a.0 (t1 e);
            no_default_alpn = λ e. n.0 (t2 e);
            port = t3;
            ipv4_hint = t4;
            ipv6_hint = t6;
          },
      λ w. tests.1 (
        λ e. m.1 (w.mandatory e),
        λ e. a.1 (w.alpn e),
        λ e. n.1 (w.no_default_alpn e),
        w.port,
        w.ipv4_hint,
        w.ipv6_hint,
      ),
    )

-- A parameter whose value is hexadecimal and well formed for its key.
abbrev pub IsReadable : ServiceParameter → Type 0
IsReadable p = IfSome (λ v. IsWellFormed p.key v) ⊥ (decode_hex p.value_hex)

pub Fits_iff : (p : ServiceParameter) → Fits p ↔ IsReadable p
Fits_iff p = elim (Option-cases (decode_hex p.value_hex)) [
  | inl e ↦ rw e (λ h. h, λ h. h)
  | inr (v, e) ↦ rw e (malformed_value_iff p.key v (rw e at (decode_hex-fits p.value_hex)))
]
