-- ===== src/HttpsPath/Service.antt =====
-- internal/dnshttpspath/service.go: which ServiceMode records the client can use, and the hostnames
-- that they lead to. Go maps are lists of entries with the last write first.
pub mod Params
pub mod Keys
pub mod Usable
pub mod Faults
pub mod Description
pub mod Decision
use reachrun.Prelude.{
  ℕ, zero, suc, ◌+◌, ◌*◌, ◌%◌, Bool, true, false, not, ◌&&◌, ◌||◌, Option, none, some, List, [],
  ◌∷◌, ◌++◌, ltb, leb, ◌==◌, if◌then◌else◌, Bytes, codes, bytes_eq, contains, length, take, drop,
  is_empty, decode_hex, sort_by,
}
use reachrun.Dns.Types
use reachrun.Dns.Types.{
  query_type_eq, BindingMode, ServiceParameter, ServiceBinding, Record, Evidence,
}

abbrev pub param_mandatory : ℕ
param_mandatory = 0

abbrev pub param_alpn : ℕ
param_alpn = 1

abbrev pub param_no_default_alpn : ℕ
param_no_default_alpn = 2

abbrev pub param_port : ℕ
param_port = 3

abbrev pub param_ipv4_hint : ℕ
param_ipv4_hint = 4

abbrev pub param_ipv6_hint : ℕ
param_ipv6_hint = 6

abbrev pub https_default_port : ℕ
https_default_port = 443

pub record BindingReference : Type 0 where
  pub record_index : ℕ
  pub record_of : Record

pub data BindingReason : Type 0 where
  usable malformed_parameters unsupported_parameters : BindingReason

pub record BindingDecision : Type 0 where
  pub record_index : ℕ
  pub priority : ℕ
  pub address_hostname : Bytes
  pub is_usable : Bool
  pub reason : BindingReason
  pub unsupported_parameter_keys : List ℕ

-- `binary.BigEndian.Uint16`, which panics on fewer than two bytes; `none` is the panic.
abbrev pub uint16 : Bytes → Option ℕ
uint16 (hi ∷ lo ∷ rest) = some (hi * 256 + lo)
uint16 _ = none

-- The loop of `mandatoryKeys`, two bytes a round.
unfoldable pub mandatory_loop : Option ℕ → Bytes → Option (List ℕ)
mandatory_loop previous [] = some []
mandatory_loop previous (x ∷ []) = none
mandatory_loop previous (hi ∷ lo ∷ rest) =
    let key = hi * 256 + lo in
    let keys = mandatory_loop (some key) rest in
    if elim previous [ none ↦ false | some last ↦ leb key last ]
    then none
    else elim keys [ none ↦ none | some found ↦ some (key ∷ found) ]

unfoldable pub mandatory_keys : Bytes → Option (List ℕ)
mandatory_keys value =
    if is_empty value || not (length value % 2 == 0) then none else mandatory_loop none value

-- The loop of `alpnIDs` on the bytes from `offset` on; every round takes one byte at least.
unfoldable pub alpn_loop : ℕ → Bytes → Option (List Bytes)
alpn_loop f [] = some []
alpn_loop zero (n ∷ rest) = none
alpn_loop (suc f) (n ∷ rest) =
    let ids = alpn_loop f (drop n rest) in
    if n == 0 || ltb (length rest) n
    then none
    else elim ids [ none ↦ none | some found ↦ some (take n rest ∷ found) ]

unfoldable pub alpn_ids : Bytes → Option (List Bytes)
alpn_ids value = if is_empty value then none else alpn_loop (length value) value

abbrev pub contains_alpn : List Bytes → Bytes → Bool
contains_alpn [] wanted = false
contains_alpn (id ∷ ids) wanted = bytes_eq id wanted || contains_alpn ids wanted

abbrev pub supported_mandatory_key : ℕ → Bool
supported_mandatory_key key = key == param_alpn || key == param_no_default_alpn || key == param_port

-- The loop of `normalizedKeys` behind the sort: a key is kept unless it is the last one kept.
unfoldable pub distinct_keys : Option ℕ → List ℕ → List ℕ
distinct_keys last [] = []
distinct_keys last (key ∷ keys) =
    let kept = distinct_keys (some key) keys in
    if elim last [ none ↦ false | some k ↦ k == key ] then kept else key ∷ kept

unfoldable pub normalized_keys : List ℕ → List ℕ
normalized_keys keys = distinct_keys none (sort_by (λ k. k) keys)

abbrev pub Values : Type 0
Values = List (ℕ × Bytes)

unfoldable pub value_of : ℕ → Values → Option Bytes
value_of key [] = none
value_of key ((k, v) ∷ values) = if k == key then some v else value_of key values

abbrev pub is_none {ℓ} : {A : Type ℓ} → Option A → Bool
is_none none = true
is_none (some _) = false

-- The switch on one parameter's key.
unfoldable pub malformed_value : ℕ → Bytes → Bool
malformed_value key value =
    if key == param_mandatory
    then is_none (mandatory_keys value)
    else if key == param_alpn
    then is_none (alpn_ids value)
    else if key == param_no_default_alpn
    then not (is_empty value)
    else if key == param_port
    then not (length value == 2)
    else if key == param_ipv4_hint
    then is_empty value || not (length value % 4 == 0)
    else if key == param_ipv6_hint
    then is_empty value || not (length value % 16 == 0)
    else false

-- `values` and `malformed`.
pub record Parsed : Type 0 where
  pub values : Values
  pub malformed : List ℕ

unfoldable pub parse_param : ServiceParameter → Parsed → Parsed
parse_param p s = elim (decode_hex p.value_hex) [
  | none ↦ record s { malformed = s.malformed ++ p.key ∷ [] }
  | some value ↦ record {
    values = (p.key, value) ∷ s.values;
    malformed = if malformed_value p.key value then s.malformed ++ p.key ∷ [] else s.malformed;
  }
]

unfoldable pub parse_params : List ServiceParameter → Parsed → Parsed
parse_params [] s = s
parse_params (p ∷ ps) s = parse_params ps (parse_param p s)

-- no-default-alpn without alpn.
unfoldable pub missing_alpn : Values → List ℕ
missing_alpn values =
    if is_none (value_of param_no_default_alpn values)
    then []
    else if is_none (value_of param_alpn values)
    then param_no_default_alpn ∷ []
    else []

unfoldable pub missing_keys : Values → List ℕ → List ℕ
missing_keys values [] = []
missing_keys values (key ∷ keys) =
    let rest = missing_keys values keys in
    if key == param_mandatory || is_none (value_of key values) then key ∷ rest else rest

-- The keys of the mandatory parameter, none where there is no such parameter or it is malformed.
abbrev pub mandatory_of : Values → List ℕ
mandatory_of values = elim (value_of param_mandatory values) [
  | none ↦ []
  | some value ↦ elim (mandatory_keys value) [ none ↦ [] | some keys ↦ keys ]
]

unfoldable pub missing_mandatory : Values → List ℕ
unfolding missing_keys
missing_mandatory values = missing_keys values (mandatory_of values)

unfoldable pub unsupported_keys : List ℕ → List ℕ
unsupported_keys [] = []
unsupported_keys (key ∷ keys) =
    let rest = unsupported_keys keys in if supported_mandatory_key key then rest else key ∷ rest

-- A port other than 443; a value that `Uint16` cannot read would be a panic.
unfoldable pub unsupported_port : Values → Option (List ℕ)
unsupported_port values = elim (value_of param_port values) [
  | none ↦ some []
  | some value ↦ elim (uint16 value) [
    | none ↦ none
    | some port ↦ some (if port == https_default_port then [] else param_port ∷ [])
  ]
]

abbrev pub http11 : Bytes
http11 = codes "http/1.1"

-- `alpnIDs(values[serviceParamALPN])`, with the zero value where it fails.
abbrev pub ids_of : Values → List Bytes
ids_of values = elim (value_of param_alpn values) [
  | none ↦ []
  | some value ↦ elim (alpn_ids value) [ none ↦ [] | some ids ↦ ids ]
]

unfoldable pub unsupported_alpn : Values → List ℕ
unsupported_alpn values =
    if is_none (value_of param_no_default_alpn values) || contains_alpn (ids_of values) http11
    then []
    else param_alpn ∷ param_no_default_alpn ∷ []

abbrev pub decision_of : BindingReference → ServiceBinding → BindingDecision
decision_of reference b = record {
  record_index = reference.record_index;
  priority = b.priority;
  address_hostname = if bytes_eq b.target (codes ".") then reference.record_of.name else b.target;
  is_usable = true;
  reason = usable;
  unsupported_parameter_keys = [];
}

unfoldable pub all_malformed : Parsed → List ℕ
all_malformed parsed =
    parsed.malformed ++ (missing_alpn parsed.values ++ missing_mandatory parsed.values)

abbrev refused : BindingDecision → BindingReason → List ℕ → BindingDecision
refused d why keys = record d {
  is_usable = false;
  reason = why;
  unsupported_parameter_keys = normalized_keys keys;
}

-- The second half of `evaluateBinding`, on well-formed parameters; `none` is a panic.
unfoldable pub evaluate_supported : BindingDecision → Values → Option BindingDecision
evaluate_supported d values = elim (unsupported_port values) [
  | none ↦ none
  | some port ↦
      let unsupported =
        unsupported_keys (mandatory_of values) ++ (port ++ unsupported_alpn values) in
      some (if is_empty unsupported then d else refused d unsupported_parameters unsupported)
]

-- `evaluateBinding` of a reference whose record has the service binding `b`.
unfoldable pub evaluate_binding : BindingReference → ServiceBinding → Option BindingDecision
evaluate_binding reference b =
    let d = decision_of reference b in
    let parsed = parse_params b.params (record { values = []; malformed = [] }) in
    let malformed = all_malformed parsed in
    if not (is_empty malformed)
    then some (refused d malformed_parameters malformed)
    else evaluate_supported d parsed.values
