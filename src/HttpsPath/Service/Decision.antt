-- ===== src/HttpsPath/Service/Decision.antt =====
-- evaluateBinding against its description: when a record is usable, and which keys are named otherwise.
use reachrun.Prelude.{
  ℕ, true, false, Option, none, some, List, [], ◌∷◌, ◌++◌, ◌≡◌, ◌≢◌, ◌↔◌, ◌⊎◌, inl, inr, refl, ap,
  sym, ◌∙◌, subst, arith, Bytes, All, IfSome, Bool-cases, Option-cases, decode_hex,
}
use reachrun.Dns.Types.{ServiceParameter, ServiceBinding}
use reachrun.HttpsPath.Service.{
  param_mandatory, BindingReference, BindingDecision, uint16, supported_mandatory_key, Values,
  value_of, is_none, malformed_value, mandatory_keys, alpn_ids, Parsed, parse_param, parse_params,
  missing_alpn, mandatory_of, missing_mandatory, unsupported_keys, unsupported_port, http11, ids_of,
  contains_alpn, unsupported_alpn, all_malformed, evaluate_binding,
}
use reachrun.HttpsPath.Service.Params.{mandatory_keys_iff, alpn_ids_iff}
use reachrun.HttpsPath.Service.Faults.{
  Listed, Listed-append, All-at, normalized_keys-Listed, later, given, parse_params-given,
  IsReadable, Fits_iff,
}
use reachrun.HttpsPath.Service.Usable.{Fits, IsAccepted, parsed_of, evaluate_binding-IsRuling}
use reachrun.HttpsPath.Service.Description.{
  Required, Member, Offers, BadParam, MalformedKey, UnsupportedKey, IsCompatible, IsDecision,
  contains_alpn_iff, given-fits, Member-filled, Listed-filled, All-from, missing_keys-Listed,
  unsupported_keys-Listed, missing_alpn-Listed, unsupported_alpn-Listed, unsupported_port-Listed,
}

some_eq : {A : Type 0} {a b : A} → some a ≡ some b → b ≡ a
some_eq e = cc e

parse_param-Listed :
    (p : ServiceParameter) (s : Parsed) (k : ℕ)
    → Listed k (parse_param p s).malformed
      ↔ (Listed k s.malformed ⊎ ((p.key ≡ k) × (IsReadable p → ⊥)))
unfolding parse_param
parse_param-Listed p s k =
    let readable = Fits_iff p in
    let more = Listed-append k s.malformed (p.key ∷ []) in
    elim (Option-cases (decode_hex p.value_hex)) [
      | inl e ↦
          rw (parse_param, e)
            (
              λ h. elim (more.0 h) [ inl b ↦ inl b | inr here ↦ inr (only here, λ r. r) ],
              λ h. more.1 (elim h [ inl b ↦ inl b | inr (here, _) ↦ inr (inl here) ]),
            )
      | inr (v, e) ↦
          let r = rw e at readable in
          elim (Bool-cases (malformed_value p.key v)) [
            | inl bad ↦
                rw (parse_param, e, bad)
                  (
                    λ h. elim (more.0 h) [
                      | inl b ↦ inl b
                      | inr here ↦ inr (only here, λ w. cc (sym bad ∙ r.1 w))
                    ],
                    λ h. more.1 (elim h [ inl b ↦ inl b | inr (here, _) ↦ inr (inl here) ]),
                  )
            | inr good ↦
                rw (parse_param, e, good)
                  (
                    λ h. inl h,
                    λ h. elim h [ inl b ↦ b | inr (here, un) ↦ elim (un (r.0 good)) [ ] ],
                  )
          ]
    ]
  where
    only : {x : ℕ} → Listed k (x ∷ []) → x ≡ k
    only (inl e) = e
    only (inr h) = elim h [ ]

All-iff :
    {A : Type 0} (P Q : A → Type 0) → ((x : A) → P x ↔ Q x) → (xs : List A) → All P xs ↔ All Q xs
All-iff P Q f [] = (λ h. tt, λ h. tt)
All-iff P Q f (x ∷ xs) =
    (λ h. ((f x).0 h.0, (All-iff P Q f xs).0 h.1), λ h. ((f x).1 h.0, (All-iff P Q f xs).1 h.1))

iff_trans : {A B C : Type 0} → A ↔ B → B ↔ C → A ↔ C
iff_trans f g = (λ a. g.0 (f.0 a), λ c. f.1 (g.1 c))

supported_iff : (k : ℕ) → (supported_mandatory_key k ≡ true) ↔ ((k ≡ 1) ⊎ ((k ≡ 2) ⊎ (k ≡ 3)))
supported_iff k = ground arith

abbrev Mandatory : Values → ℕ → Type 0
Mandatory values k =
    (k ≢ param_mandatory)
    × (is_none (value_of k values) ≡ false)
    × (supported_mandatory_key k ≡ true)

-- The keys and the identifiers of a value that is there.
abbrev keys_at : Option Bytes → List ℕ
keys_at value = elim value [
  | none ↦ []
  | some v ↦ elim (mandatory_keys v) [ none ↦ [] | some keys ↦ keys ]
]

abbrev ids_at : Option Bytes → List Bytes
ids_at value = elim value [ none ↦ [] | some v ↦ elim (alpn_ids v) [ none ↦ [] | some ids ↦ ids ] ]

module _ (ps : List ServiceParameter) where
  abbrev parsed : Parsed
  parsed = parse_params ps (record { values = []; malformed = [] })

  same : (key : ℕ) → value_of key parsed.values ≡ given ps key
  unfolding value_of
  same key =
      parse_params-given ps (record { values = []; malformed = [] }) key ∙ later_none (given ps key)
    where
      later_none : (v : Option Bytes) → later v none ≡ v
      later_none none = refl
      later_none (some v) = refl

  keys_at-Listed : (k : ℕ) → Listed k (keys_at (given ps 0)) ↔ Required ps k
  keys_at-Listed k = elim (Option-cases (given ps 0)) [
    | inl e ↦ rw e (λ h. h, λ h. h)
    | inr (v, e) ↦
        let bytes = rw e at (given-fits ps 0) in
        elim (Option-cases (mandatory_keys v)) [
          | inl f ↦
              rw (e, keys_at, f)
                (
                  λ h. elim h [ ],
                  λ (ks, a, b, c).
                      cc (sym f ∙ (mandatory_keys_iff v ks bytes).1 (a, b, Listed-filled k ks c)),
                )
          | inr (ks, f) ↦
              rw (e, keys_at, f)
                (
                  λ h. let is = (mandatory_keys_iff v ks bytes).0 f in (ks, is.0, is.1, h),
                  λ (js, a, b, c).
                      let g =
                        sym f ∙ (mandatory_keys_iff v js bytes).1 (a, b, Listed-filled k js c) in
                      subst (Listed k) (some_eq g) c,
                )
        ]
  ]

  mandatory-Listed : (k : ℕ) → Listed k (mandatory_of parsed.values) ↔ Required ps k
  mandatory-Listed k =
      subst (λ o. Listed k (keys_at o) ↔ Required ps k) (sym (same 0)) (keys_at-Listed k)

  ids_at-Offers : (contains_alpn (ids_at (given ps 1)) http11 ≡ true) ↔ Offers ps
  ids_at-Offers = elim (Option-cases (given ps 1)) [
    | inl e ↦ rw e (λ h. cc h, λ h. elim h [ ])
    | inr (v, e) ↦ elim (Option-cases (alpn_ids v)) [
      | inl f ↦
          rw (e, ids_at, f)
            (
              λ h. cc h,
              λ (ids, a, b, c).
                  cc (sym f ∙ (alpn_ids_iff v ids).1 (a, b, Member-filled http11 ids c)),
            )
      | inr (ids, f) ↦
          rw (e, ids_at, f)
            (
              λ h.
                  let is = (alpn_ids_iff v ids).0 f in
                  (ids, is.0, is.1, (contains_alpn_iff ids http11).0 h),
              λ (js, a, b, c).
                  let g = sym f ∙ (alpn_ids_iff v js).1 (a, b, Member-filled http11 js c) in
                  (contains_alpn_iff ids http11).1 (subst (Member http11) (some_eq g) c),
            )
    ]
  ]

  Offers-iff : (contains_alpn (ids_of parsed.values) http11 ≡ true) ↔ Offers ps
  Offers-iff =
      subst (λ o. (contains_alpn (ids_at o) http11 ≡ true) ↔ Offers ps) (sym (same 1)) ids_at-Offers

  -- The three places where a key is found to be malformed.
  bad-Listed :
      (qs : List ServiceParameter) (s : Parsed) (k : ℕ)
      → Listed k (parse_params qs s).malformed ↔ (Listed k s.malformed ⊎ BadParam k qs)
  unfolding parse_params
  bad-Listed [] s k = (λ h. inl h, λ h. elim h [ inl x ↦ x | inr y ↦ elim y [ ] ])
  bad-Listed (q ∷ qs) s k =
      let step = parse_param-Listed q s k in
      let rest = bad-Listed qs (parse_param q s) k in
      (
        λ h. elim (rest.0 h) [
          | inl now ↦ elim (step.0 now) [ inl before ↦ inl before | inr here ↦ inr (inl here) ]
          | inr later ↦ inr (inr later)
        ],
        λ h. rest.1 (elim h [
          | inl before ↦ inl (step.1 (inl before))
          | inr bad ↦ elim bad [ inl here ↦ inl (step.1 (inr here)) | inr later ↦ inr later ]
        ]),
      )

  malformed-Listed : (k : ℕ) → Listed k (all_malformed parsed) ↔ MalformedKey ps k
  unfolding all_malformed missing_mandatory
  malformed-Listed k =
      let outer =
        Listed-append k parsed.malformed
          (missing_alpn parsed.values ++ missing_mandatory parsed.values) in
      let inner = Listed-append k (missing_alpn parsed.values) (missing_mandatory parsed.values) in
      let bad = bad-Listed ps (record { values = []; malformed = [] }) k in
      let alpn = missing_alpn-Listed parsed.values k in
      let missing = missing_keys-Listed parsed.values (mandatory_of parsed.values) k in
      let required = mandatory-Listed k in
      let has2 = ap is_none (same 2) in
      let has1 = ap is_none (same 1) in
      let hask = ap is_none (same k) in
      (
        λ h. elim (outer.0 h) [
          | inl m ↦ elim (bad.0 m) [ inl x ↦ elim x [ ] | inr b ↦ inl b ]
          | inr r ↦ elim (inner.0 r) [
            | inl a ↦
                let (two, present, absent) = alpn.0 a in
                inr (inl (two, sym has2 ∙ present, sym has1 ∙ absent))
            | inr k0 ↦
                let (listed, why) = missing.0 k0 in
                inr
                  (inr (required.0 listed, elim why [ inl z ↦ inl z | inr l ↦ inr (sym hask ∙ l) ]))
          ]
        ],
        λ h. outer.1 (elim h [
          | inl b ↦ inl (bad.1 (inr b))
          | inr r ↦ elim r [
            | inl (two, present, absent) ↦
                inr (inner.1 (inl (alpn.1 (two, has2 ∙ present, has1 ∙ absent))))
            | inr (req, why) ↦ inr (
                inner.1 (
                  inr (
                    missing.1
                      (required.1 req, elim why [ inl z ↦ inl z | inr l ↦ inr (hask ∙ l) ]))))
          ]
        ]),
      )

  unsupported-Listed :
      (port : List ℕ) (k : ℕ)
      → unsupported_port parsed.values ≡ some port
      → Listed k (
          unsupported_keys (mandatory_of parsed.values) ++ (port ++ unsupported_alpn parsed.values))
        ↔ UnsupportedKey ps k
  unsupported-Listed port k read =
      let keys = unsupported_keys (mandatory_of parsed.values) in
      let alpn = unsupported_alpn parsed.values in
      let outer = Listed-append k keys (port ++ alpn) in
      let inner = Listed-append k port alpn in
      let mandatory = unsupported_keys-Listed (mandatory_of parsed.values) k in
      let required = mandatory-Listed k in
      let ports = unsupported_port-Listed parsed.values port k read in
      let wrong = λ (o : Option Bytes). IfSome (λ v. uint16 v ≢ some 443) ⊥ o in
      let alpns = unsupported_alpn-Listed parsed.values k in
      let has2 = ap is_none (same 2) in
      (
        λ h. elim (outer.0 h) [
          | inl m ↦ let (listed, x, y, z) = mandatory.0 m in inl (required.0 listed, x, y, z)
          | inr r ↦ elim (inner.0 r) [
            | inl p ↦ let (three, w) = ports.0 p in inr (inl (three, subst wrong (same 3) w))
            | inr a ↦
                let (key, present, refuses) = alpns.0 a in
                inr (inr (key, sym has2 ∙ present, λ o. cc (sym refuses ∙ Offers-iff.1 o)))
          ]
        ],
        λ h. outer.1 (elim h [
          | inl (req, a, b, c) ↦ inl (mandatory.1 (required.1 req, a, b, c))
          | inr r ↦ inr (
              inner.1 (elim r [
                | inl (three, w) ↦ inl (ports.1 (three, subst wrong (sym (same 3)) w))
                | inr (key, present, refuses) ↦ inr (
                    alpns.1 (
                      key,
                      has2 ∙ present,
                      elim (Bool-cases (contains_alpn (ids_of parsed.values) http11)) [
                        | inl offered ↦ elim (refuses (Offers-iff.0 offered)) [ ]
                        | inr silent ↦ silent
                      ],
                    ))
              ]))
        ]),
      )

  IsCompatible-iff : IsAccepted ps parsed.values ↔ IsCompatible ps
  IsCompatible-iff =
      let has2 = ap is_none (same 2) in
      let has1 = ap is_none (same 1) in
      (
        λ a. record {
          readable = (All-iff Fits IsReadable Fits_iff ps).0 a.well_formed;
          required = λ k req.
              let (other, present, supported) =
                All-at (Mandatory parsed.values) k (mandatory_of parsed.values) a.mandatory
                  ((mandatory-Listed k).1 req) in
              (other, sym (ap is_none (same k)) ∙ present, (supported_iff k).0 supported);
          port = subst (IfSome (λ v. uint16 v ≡ some 443) Unit) (same 3) a.port;
          alpn =
              λ h. let (one, offered) = a.alpn (has2 ∙ h) in (sym has1 ∙ one, Offers-iff.0 offered);
        },
        λ c. record {
          well_formed = (All-iff Fits IsReadable Fits_iff ps).1 c.readable;
          mandatory = All-from (Mandatory parsed.values) (mandatory_of parsed.values) (λ k listed.
              let (other, present, supported) = c.required k ((mandatory-Listed k).0 listed) in
              (other, ap is_none (same k) ∙ present, (supported_iff k).1 supported));
          port = subst (IfSome (λ v. uint16 v ≡ some 443) Unit) (sym (same 3)) c.port;
          alpn =
              λ h. let (one, offered) = c.alpn (sym has2 ∙ h) in (has1 ∙ one, Offers-iff.1 offered);
        },
      )

-- `evaluateBinding` returns for every record, never reading a port of fewer than two bytes. The record
-- is usable exactly when its parameters are hexadecimal and well formed, its mandatory keys are present
-- and supported, its port is 443 if given, and HTTP/1.1 is offered where the default is excluded. A
-- record that is refused names, in rising order, exactly the keys that are at fault: those of a value
-- that cannot be read, of no-default-alpn without alpn, and of mandatory keys that are missing or 0; and
-- where there is none of these, the mandatory keys that are not supported, another port, and the two
-- ALPN keys where HTTP/1.1 is not offered.
pub evaluate_binding-IsDecision :
    (reference : BindingReference) (b : ServiceBinding)
    → (d : BindingDecision) × (evaluate_binding reference b ≡ some d) × IsDecision b.params d
evaluate_binding-IsDecision reference b =
    let (d, found, is) = evaluate_binding-IsRuling reference b in
    let ps = b.params in
    let accepted = IsCompatible-iff ps in
    (
      d,
      found,
      record {
        usable_iff = (λ u. accepted.0 (is.usable_iff.0 u), λ c. is.usable_iff.1 (accepted.1 c));
        usable_reason = is.usable_reason;
        refused_reason = is.refused_reason;
        keys_rise = is.keys_rise;
        malformed = λ e k.
            subst (λ keys. Listed k keys ↔ MalformedKey ps k) (sym (is.malformed_keys e))
              (iff_trans (normalized_keys-Listed k (all_malformed (parsed_of b)))
                (malformed-Listed ps k));
        not_malformed = λ other k bad. cc (
            sym (is.clean other).1
            ∙ Listed-filled k (all_malformed (parsed_of b)) ((malformed-Listed ps k).1 bad));
        unsupported = λ e k.
            let (port, read, keys_are) = is.keys_unsupported e in
            subst (λ keys. Listed k keys ↔ UnsupportedKey ps k) (sym keys_are)
              (iff_trans (normalized_keys-Listed k _) (unsupported-Listed ps port k read));
      },
    )
