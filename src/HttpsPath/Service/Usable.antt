-- ===== src/HttpsPath/Service/Usable.antt =====
-- evaluateBinding never reads a value out of range, and calls a binding usable exactly when the client
-- can use it.
use reachrun.Prelude.{
  ℕ, ◌+◌, ◌*◌, Bool, true, false, ◌||◌, none, some, List, [], ◌∷◌, ◌++◌, ◌≡◌, ◌≢◌, ◌↔◌, inl, inr,
  refl, arith, ◌==◌, if◌then◌else◌, Bytes, length, is_empty, All, IfSome, Bool-cases, Option-cases,
  decode_hex,
}
use reachrun.Dns.Types.{ServiceParameter, ServiceBinding}
use reachrun.HttpsPath.Service.{
  param_mandatory, param_alpn, param_no_default_alpn, param_port, https_default_port,
  BindingReference, BindingDecision, usable, malformed_parameters, unsupported_parameters, uint16,
  supported_mandatory_key, normalized_keys, Values, value_of, is_none, malformed_value, Parsed,
  parse_param, parse_params, missing_alpn, missing_keys, mandatory_of, missing_mandatory,
  unsupported_keys, unsupported_port, http11, ids_of, contains_alpn, unsupported_alpn, decision_of,
  all_malformed, evaluate_supported, evaluate_binding,
}
use reachrun.HttpsPath.Service.Params.{Rising}
use reachrun.HttpsPath.Service.Keys.{normalized_keys-ne-nil, normalized_keys-Rising}

-- A parameter whose value is hexadecimal and well formed for its key.
abbrev pub Fits : ServiceParameter → Type 0
Fits p = IfSome (λ v. malformed_value p.key v ≡ false) ⊥ (decode_hex p.value_hex)

abbrev pub Present : ℕ → Values → Type 0
Present key values = is_none (value_of key values) ≡ false

-- What the client needs of the parameters of a ServiceMode record.
pub record IsAccepted (params : List ServiceParameter) (values : Values) : Type 0 where
  pub well_formed : All Fits params
  pub mandatory :
      All
        (λ k. (k ≢ param_mandatory) × Present k values × (supported_mandatory_key k ≡ true))
        (mandatory_of values)
  pub port : IfSome (λ v. uint16 v ≡ some https_default_port) Unit (value_of param_port values)
  pub alpn :
      Present param_no_default_alpn values
      → Present param_alpn values × (contains_alpn (ids_of values) http11 ≡ true)

is_empty-append :
    {A : Type 0} (xs ys : List A)
    → (is_empty (xs ++ ys) ≡ true) ↔ ((is_empty xs ≡ true) × (is_empty ys ≡ true))
is_empty-append [] ys = (λ h. (refl, h), λ h. h.1)
is_empty-append (x ∷ xs) ys = (λ h. cc, λ h. cc (h.0))

-- The values read so far are well formed for their keys.
abbrev pub AllFit : Values → Type 0
AllFit values = (key : ℕ) → IfSome (λ v. malformed_value key v ≡ false) Unit (value_of key values)

parse_param-clean :
    (p : ServiceParameter) (s : Parsed)
    → (is_empty (parse_param p s).malformed ≡ true) ↔ ((is_empty s.malformed ≡ true) × Fits p)
unfolding parse_param
parse_param-clean p s = elim (Option-cases (decode_hex p.value_hex)) [
  | inl e ↦ ground (arith, is_empty-append s.malformed (p.key ∷ []))
  | inr (v, e) ↦ elim (Bool-cases (malformed_value p.key v)) [
    | inl bad ↦ ground (arith, is_empty-append s.malformed (p.key ∷ []))
    | inr good ↦ ground arith
  ]
]

parse_params-clean :
    (ps : List ServiceParameter) (s : Parsed)
    → (is_empty (parse_params ps s).malformed ≡ true)
      ↔ ((is_empty s.malformed ≡ true) × All Fits ps)
unfolding parse_params
parse_params-clean [] s = (λ h. (h, tt), λ h. h.0)
parse_params-clean (p ∷ ps) s =
    let step = parse_param-clean p s in
    let rest = parse_params-clean ps (parse_param p s) in
    (
      λ h. let (a, b) = rest.0 h in let (c, d) = step.0 a in (c, (d, b)),
      λ h. rest.1 (step.1 (h.0, h.1.0), h.1.1),
    )

parse_param-AllFit :
    (p : ServiceParameter) (s : Parsed) → Fits p → AllFit s.values → AllFit (parse_param p s).values
unfolding parse_param value_of
parse_param-AllFit p s w f key = ground (arith, f key)

pub parse_params-AllFit :
    (ps : List ServiceParameter) (s : Parsed)
    → All Fits ps
    → AllFit s.values
    → AllFit (parse_params ps s).values
unfolding parse_params
parse_params-AllFit [] s w f = f
parse_params-AllFit (p ∷ ps) s w f =
    parse_params-AllFit ps (parse_param p s) w.1 (parse_param-AllFit p s w.0 f)

missing_keys-empty :
    (values : Values) (keys : List ℕ)
    → (is_empty (missing_keys values keys) ≡ true)
      ↔ All (λ k. (k ≢ param_mandatory) × Present k values) keys
unfolding missing_keys
missing_keys-empty values [] = (λ h. tt, λ h. refl)
missing_keys-empty values (k ∷ keys) = ground (arith, missing_keys-empty values keys)

unsupported_keys-empty :
    (keys : List ℕ)
    → (is_empty (unsupported_keys keys) ≡ true) ↔ All (λ k. supported_mandatory_key k ≡ true) keys
unfolding unsupported_keys
unsupported_keys-empty [] = (λ h. tt, λ h. refl)
unsupported_keys-empty (k ∷ keys) = elim (Bool-cases (supported_mandatory_key k)) [
  | inl e ↦ ground (arith, unsupported_keys-empty keys)
  | inr e ↦ ground (arith, unsupported_keys-empty keys)
]

uint16-two : (v : Bytes) → length v ≡ 2 → (n : ℕ) × (uint16 v ≡ some n)
uint16-two [] h = absurd (omega arith)
uint16-two (x ∷ []) h = absurd (omega arith)
uint16-two (hi ∷ lo ∷ rest) h = (hi * 256 + lo, refl)

port_fits-two : (v : Bytes) → malformed_value param_port v ≡ false → length v ≡ 2
unfolding malformed_value
port_fits-two v h = ground arith

-- On well-formed values the port is read, and named only if it is not 443.
unsupported_port-reads :
    (values : Values)
    → AllFit values
    → (keys : List ℕ) × (unsupported_port values ≡ some keys)
      × ((is_empty keys ≡ true)
          ↔ IfSome (λ v. uint16 v ≡ some https_default_port) Unit (value_of param_port values))
unfolding unsupported_port
unsupported_port-reads values f = elim (Option-cases (value_of param_port values)) [
  | inl e ↦ ([], ground arith, ground arith)
  | inr (v, e) ↦
      let fits : malformed_value param_port v ≡ false = ground (arith, f param_port) in
      let (n, read) = uint16-two v (port_fits-two v fits) in
      (if n == https_default_port then [] else param_port ∷ [], ground arith, ground arith)
]

alpn-empty :
    (values : Values)
    → ((is_empty (missing_alpn values) ≡ true) × (is_empty (unsupported_alpn values) ≡ true)) ↔ (
        Present param_no_default_alpn values
        → Present param_alpn values × (contains_alpn (ids_of values) http11 ≡ true))
unfolding missing_alpn unsupported_alpn
alpn-empty values =
    let first = is_none (value_of param_no_default_alpn values) in
    let second = is_none (value_of param_alpn values) in
    let third = contains_alpn (ids_of values) http11 in by_cases first second third
  where
    by_cases :
        (a b c : Bool)
        → ((is_empty (if a then [] else if b then param_no_default_alpn ∷ [] else []) ≡ true)
            × (is_empty (if a || c then [] else param_alpn ∷ param_no_default_alpn ∷ []) ≡ true))
          ↔ (a ≡ false → (b ≡ false) × (c ≡ true))
    by_cases true b c = (λ h e. cc, λ h. (refl, refl))
    by_cases false true c = (λ h. cc (h.0), λ h. cc ((h refl).0))
    by_cases false false true = (λ h e. (refl, refl), λ h. (refl, refl))
    by_cases false false false = (λ h. cc (h.1), λ h. cc ((h refl).1))

All-and :
    {A : Type 0} (P Q : A → Type 0) (xs : List A) → (All P xs × All Q xs) ↔ All (λ x. P x × Q x) xs
All-and P Q [] = (λ h. tt, λ h. (tt, tt))
All-and P Q (x ∷ xs) = (
  λ h. ((h.0.0, h.1.0), (All-and P Q xs).0 (h.0.1, h.1.1)),
  λ h. let (a, b) = (All-and P Q xs).1 h.1 in ((h.0.0, a), (h.0.1, b)),
)

-- What a decision says of the parameters that were parsed.
pub record IsRuling (params : List ServiceParameter) (parsed : Parsed) (d : BindingDecision)
    : Type 0 where
  pub usable_iff : (d.is_usable ≡ true) ↔ IsAccepted params parsed.values
  pub usable_reason : d.is_usable ≡ true → (d.reason ≡ usable) × (d.unsupported_parameter_keys ≡ [])
  pub refused_reason :
      d.is_usable ≡ false → (d.reason ≢ usable) × (is_empty d.unsupported_parameter_keys ≡ false)
  pub keys_rise : Rising none d.unsupported_parameter_keys
  pub malformed_keys :
      d.reason ≡ malformed_parameters
      → d.unsupported_parameter_keys ≡ normalized_keys (all_malformed parsed)
  pub clean :
      d.reason ≢ malformed_parameters → All Fits params × (is_empty (all_malformed parsed) ≡ true)
  pub keys_unsupported :
      d.reason ≡ unsupported_parameters
      → (port : List ℕ) × (unsupported_port parsed.values ≡ some port)
        × (d.unsupported_parameter_keys
            ≡ normalized_keys (
                unsupported_keys (mandatory_of parsed.values)
                ++ (port ++ unsupported_alpn parsed.values)))

abbrev pub parsed_of : ServiceBinding → Parsed
parsed_of b = parse_params b.params (record { values = []; malformed = [] })

module _ (reference : BindingReference) (b : ServiceBinding) where
  abbrev parsed : Parsed
  parsed = parsed_of b

  -- The first half of the decision: no parameter is malformed and none is missing.
  abbrev Clean : Type 0
  Clean =
      All Fits b.params
      × (is_empty (missing_alpn parsed.values) ≡ true)
      × All (λ k. (k ≢ param_mandatory) × Present k parsed.values) (mandatory_of parsed.values)

  all_malformed-clean : (is_empty (all_malformed parsed) ≡ true) ↔ Clean
  unfolding all_malformed missing_mandatory
  all_malformed-clean =
      let rest = missing_alpn parsed.values ++ missing_mandatory parsed.values in
      let outer = is_empty-append parsed.malformed rest in
      let inner = is_empty-append (missing_alpn parsed.values) (missing_mandatory parsed.values) in
      let wf = parse_params-clean b.params (record { values = []; malformed = [] }) in
      let ks = missing_keys-empty parsed.values (mandatory_of parsed.values) in
      (
        λ h. let (m, r) = outer.0 h in let (a, k) = inner.0 r in ((wf.0 m).1, a, ks.0 k),
        λ c. outer.1 (wf.1 (refl, c.0), inner.1 (c.1, ks.1 c.2)),
      )

  Compatible-Clean : IsAccepted b.params parsed.values → Clean
  Compatible-Clean c =
      let both =
        (All-and (λ k. (k ≢ param_mandatory) × Present k parsed.values)
            (λ k. supported_mandatory_key k ≡ true) (mandatory_of parsed.values)).1
          (regroup (mandatory_of parsed.values) c.mandatory) in
      (c.well_formed, ((alpn-empty parsed.values).1 c.alpn).0, both.0)
    where
      regroup :
          (ks : List ℕ)
          → All
              (λ k.
                (k ≢ param_mandatory)
                × Present k parsed.values
                × (supported_mandatory_key k ≡ true))
              ks
          → All
              (λ k.
                ((k ≢ param_mandatory) × Present k parsed.values)
                × (supported_mandatory_key k ≡ true))
              ks
      regroup [] h = tt
      regroup (k ∷ ks) h = (((h.0.0, h.0.1), h.0.2), regroup ks h.1)

  evaluate_supported-IsRuling :
      Clean
      → (d : BindingDecision) × (evaluate_supported (decision_of reference b) parsed.values
          ≡ some d)
        × IsRuling b.params parsed d
  unfolding evaluate_supported
  evaluate_supported-IsRuling c =
      let (port, read, port_iff) = unsupported_port-reads parsed.values all_fit in
      let keys = unsupported_keys (mandatory_of parsed.values) in
      let alpn = unsupported_alpn parsed.values in
      let unsupported = keys ++ (port ++ alpn) in
      let outer = is_empty-append keys (port ++ alpn) in
      let inner = is_empty-append port alpn in
      let supported_iff = unsupported_keys-empty (mandatory_of parsed.values) in
      let alpn_iff = alpn-empty parsed.values in
      elim (Bool-cases (is_empty unsupported)) [
        | inl none_left ↦
            let (k, r) = outer.0 none_left in
            let (pe, ae) = inner.0 r in
            (
              decision_of reference b,
              ground arith,
              record {
                usable_iff = (
                  λ _. record {
                    well_formed = c.0;
                    mandatory = join (mandatory_of parsed.values) c.2 (supported_iff.0 k);
                    port = port_iff.0 pe;
                    alpn = alpn_iff.0 (c.1, ae);
                  },
                  λ _. refl,
                );
                usable_reason = λ _. (refl, refl);
                refused_reason = λ e. cc;
                keys_rise = tt;
                malformed_keys = λ e. cc e;
                clean = λ _. (c.0, all_malformed-clean.1 c);
                keys_unsupported = λ e. cc e;
              },
            )
        | inr left ↦ (
          record (decision_of reference b) {
            is_usable = false;
            reason = unsupported_parameters;
            unsupported_parameter_keys = normalized_keys unsupported;
          },
          ground arith,
          record {
            usable_iff = (
              λ e. cc,
              λ ok.
                  let empty : is_empty unsupported ≡ true = outer.1 (
                    supported_iff.1 (last_of (mandatory_of parsed.values) ok.mandatory),
                    inner.1 (port_iff.1 ok.port, (alpn_iff.1 ok.alpn).1),
                  ) in
                  absurd (ground arith),
            );
            usable_reason = λ e. cc;
            refused_reason = λ e. (λ h. cc, normalized_keys-ne-nil unsupported left);
            keys_rise = (normalized_keys-Rising unsupported).0;
            malformed_keys = λ e. cc e;
            clean = λ _. (c.0, all_malformed-clean.1 c);
            keys_unsupported = λ _. (port, read, refl);
          },
        )
      ]
    where
      all_fit : AllFit parsed.values
      all_fit =
          parse_params-AllFit b.params (record { values = []; malformed = [] }) c.0
            (λ key. unfold value_of in tt)

      join :
          (ks : List ℕ)
          → All (λ k. (k ≢ param_mandatory) × Present k parsed.values) ks
          → All (λ k. supported_mandatory_key k ≡ true) ks
          → All
              (λ k.
                (k ≢ param_mandatory)
                × Present k parsed.values
                × (supported_mandatory_key k ≡ true))
              ks
      join [] h s = tt
      join (k ∷ ks) h s = ((h.0.0, h.0.1, s.0), join ks h.1 s.1)

      last_of :
          (ks : List ℕ)
          → All
              (λ k.
                (k ≢ param_mandatory)
                × Present k parsed.values
                × (supported_mandatory_key k ≡ true))
              ks
          → All (λ k. supported_mandatory_key k ≡ true) ks
      last_of [] h = tt
      last_of (k ∷ ks) h = (h.0.2, last_of ks h.1)

  -- `evaluateBinding` returns for every record, never reading a port of fewer than two bytes.
  pub evaluate_binding-IsRuling :
      (d : BindingDecision) × (evaluate_binding reference b ≡ some d) × IsRuling b.params parsed d
  evaluate_binding-IsRuling = elim (Bool-cases (is_empty (all_malformed parsed))) [
    | inr bad ↦ (
      record (decision_of reference b) {
        is_usable = false;
        reason = malformed_parameters;
        unsupported_parameter_keys = normalized_keys (all_malformed parsed);
      },
      unfold evaluate_binding in ground arith,
      record {
        usable_iff =
            (λ e. cc, λ c. absurd (ground (arith, all_malformed-clean.1 (Compatible-Clean c))));
        usable_reason = λ e. cc;
        refused_reason = λ e. (λ h. cc, normalized_keys-ne-nil (all_malformed parsed) bad);
        keys_rise = (normalized_keys-Rising (all_malformed parsed)).0;
        malformed_keys = λ _. refl;
        clean = λ other. absurd (other refl);
        keys_unsupported = λ e. cc e;
      },
    )
    | inl good ↦
        let (d, found, is) = evaluate_supported-IsRuling (all_malformed-clean.0 good) in
        (d, unfold evaluate_binding in ground arith, is)
  ]
