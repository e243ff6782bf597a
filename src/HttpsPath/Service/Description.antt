-- ===== src/HttpsPath/Service/Description.antt =====
-- What a decision on a ServiceMode record must say, by its parameters alone, and the lists of keys that
-- evaluateBinding collects.
use reachrun.Prelude.{
  ℕ, ◌<◌, true, false, none, some, List, [], ◌∷◌, ◌≡◌, ◌≢◌, ◌↔◌, ◌⊎◌, inl, inr, refl, ap, arith,
  ◌==◌, Bytes, bytes_eq_iff, is_empty, All, IfSome, Bool-cases, Option-cases,
}
use reachrun.Dns.Types.{ServiceParameter}
use reachrun.HttpsPath.Service.{
  BindingDecision, usable, malformed_parameters, unsupported_parameters, uint16, Values, value_of,
  is_none, missing_alpn, missing_keys, unsupported_keys, unsupported_port, http11, ids_of,
  contains_alpn, unsupported_alpn,
}
use reachrun.HttpsPath.Service.Params.{Rising, encode_keys, encode_ids, NotEmpty}
use reachrun.HttpsPath.Service.Faults.{Listed, given, IsReadable, decode_hex-fits}

abbrev pub Has : List ServiceParameter → ℕ → Type 0
Has ps k = is_none (given ps k) ≡ false

abbrev pub Lacks : List ServiceParameter → ℕ → Type 0
Lacks ps k = is_none (given ps k) ≡ true

-- A key that the value of `mandatory` lists.
abbrev pub Required : List ServiceParameter → ℕ → Type 0
Required ps k =
    IfSome (λ v. (ks : List ℕ) × (v ≡ encode_keys ks) × Rising none ks × Listed k ks) ⊥ (given ps 0)

abbrev pub Member : Bytes → List Bytes → Type 0
Member id [] = ⊥
Member id (x ∷ xs) = (x ≡ id) ⊎ Member id xs

-- The value of `alpn` lists HTTP/1.1.
abbrev pub Offers : List ServiceParameter → Type 0
Offers ps =
    IfSome (λ v. (ids : List Bytes) × (v ≡ encode_ids ids) × All NotEmpty ids × Member http11 ids) ⊥
      (given ps 1)

-- A parameter of the key whose value cannot be read.
abbrev pub BadParam : ℕ → List ServiceParameter → Type 0
BadParam k [] = ⊥
BadParam k (p ∷ ps) = ((p.key ≡ k) × (IsReadable p → ⊥)) ⊎ BadParam k ps

abbrev pub MalformedKey : List ServiceParameter → ℕ → Type 0
MalformedKey ps k =
    BadParam k ps ⊎ (((k ≡ 2) × Has ps 2 × Lacks ps 1) ⊎ (Required ps k × ((k ≡ 0) ⊎ Lacks ps k)))

abbrev pub UnsupportedKey : List ServiceParameter → ℕ → Type 0
UnsupportedKey ps k =
    (Required ps k × (k ≢ 1) × (k ≢ 2) × (k ≢ 3))
    ⊎ (((k ≡ 3) × IfSome (λ v. uint16 v ≢ some 443) ⊥ (given ps 3))
        ⊎ (((k ≡ 1) ⊎ (k ≡ 2)) × Has ps 2 × (Offers ps → ⊥)))

-- What the client needs of the parameters of a ServiceMode record.
pub record IsCompatible (ps : List ServiceParameter) : Type 0 where
  pub readable : All IsReadable ps
  pub required : (k : ℕ) → Required ps k → (k ≢ 0) × Has ps k × ((k ≡ 1) ⊎ ((k ≡ 2) ⊎ (k ≡ 3)))
  pub port : IfSome (λ v. uint16 v ≡ some 443) Unit (given ps 3)
  pub alpn : Has ps 2 → Has ps 1 × Offers ps

pub record IsDecision (ps : List ServiceParameter) (d : BindingDecision) : Type 0 where
  pub usable_iff : (d.is_usable ≡ true) ↔ IsCompatible ps
  pub usable_reason : d.is_usable ≡ true → (d.reason ≡ usable) × (d.unsupported_parameter_keys ≡ [])
  pub refused_reason :
      d.is_usable ≡ false → (d.reason ≢ usable) × (is_empty d.unsupported_parameter_keys ≡ false)
  pub keys_rise : Rising none d.unsupported_parameter_keys
  pub malformed :
      d.reason ≡ malformed_parameters
      → (k : ℕ) → Listed k d.unsupported_parameter_keys ↔ MalformedKey ps k
  pub not_malformed : d.reason ≢ malformed_parameters → (k : ℕ) → MalformedKey ps k → ⊥
  pub unsupported :
      d.reason ≡ unsupported_parameters
      → (k : ℕ) → Listed k d.unsupported_parameter_keys ↔ UnsupportedKey ps k

pub contains_alpn_iff :
    (ids : List Bytes) (id : Bytes) → (contains_alpn ids id ≡ true) ↔ Member id ids
contains_alpn_iff [] id = (λ h. cc h, λ h. elim h [ ])
contains_alpn_iff (x ∷ ids) id = ground (arith, contains_alpn_iff ids id, bytes_eq_iff x id)

pub given-fits :
    (ps : List ServiceParameter) (key : ℕ) → IfSome (λ v. All (λ b. b < 256) v) Unit (given ps key)
given-fits [] key = tt
given-fits (p ∷ ps) key = elim (Option-cases (given ps key)) [
  | inr (v, e) ↦ rw e (rw e at (given-fits ps key))
  | inl e ↦ elim (Bool-cases (p.key == key)) [
    | inl same ↦ rw (e, same) (decode_hex-fits p.value_hex)
    | inr other ↦ rw (e, other) tt
  ]
]

pub Member-filled : (id : Bytes) (ids : List Bytes) → Member id ids → is_empty ids ≡ false
Member-filled id [] h = elim h [ ]
Member-filled id (x ∷ ids) h = refl

pub Listed-filled : (k : ℕ) (xs : List ℕ) → Listed k xs → is_empty xs ≡ false
Listed-filled k [] h = elim h [ ]
Listed-filled k (x ∷ xs) h = refl

pub All-from : (P : ℕ → Type 0) (xs : List ℕ) → ((k : ℕ) → Listed k xs → P k) → All P xs
All-from P [] f = tt
All-from P (x ∷ xs) f = (f x (inl refl), All-from P xs (λ k h. f k (inr h)))

pub missing_keys-Listed :
    (values : Values) (keys : List ℕ) (k : ℕ)
    → Listed k (missing_keys values keys)
      ↔ (Listed k keys × ((k ≡ 0) ⊎ (is_none (value_of k values) ≡ true)))
unfolding missing_keys
missing_keys-Listed values [] k = (λ h. elim h [ ], λ h. elim h.0 [ ])
missing_keys-Listed values (x ∷ keys) k = elim (Bool-cases (x == k)) [
  | inl same ↦
      let e : x ≡ k = ground arith in
      let v = ap (λ y. is_none (value_of y values)) e in
      ground (arith, e, v, missing_keys-Listed values keys k)
  | inr other ↦ ground (arith, other, missing_keys-Listed values keys k)
]

pub unsupported_keys-Listed :
    (keys : List ℕ) (k : ℕ)
    → Listed k (unsupported_keys keys) ↔ (Listed k keys × (k ≢ 1) × (k ≢ 2) × (k ≢ 3))
unfolding unsupported_keys
unsupported_keys-Listed [] k = (λ h. elim h [ ], λ h. elim h.0 [ ])
unsupported_keys-Listed (x ∷ keys) k = ground (arith, unsupported_keys-Listed keys k)

pub missing_alpn-Listed :
    (values : Values) (k : ℕ)
    → Listed k (missing_alpn values)
      ↔ ((k ≡ 2) × (is_none (value_of 2 values) ≡ false) × (is_none (value_of 1 values) ≡ true))
unfolding missing_alpn
missing_alpn-Listed values k = ground arith

pub unsupported_alpn-Listed :
    (values : Values) (k : ℕ)
    → Listed k (unsupported_alpn values) ↔ (
        ((k ≡ 1) ⊎ (k ≡ 2))
        × (is_none (value_of 2 values) ≡ false)
        × (contains_alpn (ids_of values) http11 ≡ false))
unfolding unsupported_alpn
unsupported_alpn-Listed values k = ground arith

pub unsupported_port-Listed :
    (values : Values) (port : List ℕ) (k : ℕ)
    → unsupported_port values ≡ some port
    → Listed k port ↔ ((k ≡ 3) × IfSome (λ v. uint16 v ≢ some 443) ⊥ (value_of 3 values))
unfolding unsupported_port
unsupported_port-Listed values port k h = elim (Option-cases (value_of 3 values)) [
  | inl e ↦ ground (arith, e, h)
  | inr (v, e) ↦ elim (Option-cases (uint16 v)) [
    | inl f ↦ ground (arith, e, f, h)
    | inr (n, f) ↦ ground (arith, e, f, h)
  ]
]
