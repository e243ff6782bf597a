-- ===== src/Dns/Evidence/Records.antt =====
-- Every record that evidenceFromResponse makes passes its check, where the names of the message are
-- canonical and its service parameters rise.
use reachrun.Prelude.{
  ℕ, ◌+◌, ◌≤◌, ◌<◌, true, Option, none, some, List, [], ◌∷◌, ◌++◌, ◌≡◌, refl, arith, ◌==◌, Bytes,
  bytes_eq_refl, length, length-append, All, inl, inr, IfSome, All-append, map, ok, check_all,
  encode_hex, decode_hex-encode_hex, Bool-cases, Option-cases,
}
use reachrun.Dns.Wire
use reachrun.Dns.Wire.{Param, Resource, class_inet}
use reachrun.Dns.Evidence.{
  Library, typed_param, service_parameter_name, canonical_name, service_binding_record,
  address_record, answer_record, answer_records, Authority, soa_record, ns_record, authority_step,
  authority_loop,
}
use reachrun.Dns.Validate.{
  Checks, validate_params, validate_service_binding, validate_record, validate_soa,
  validate_ns_record,
}

-- The keys rise strictly from `previous` on, and the values hold bytes.
abbrev pub Rising : Option ℕ → List Param → Type 0
Rising previous [] = Unit
Rising previous (p ∷ ps) =
    IfSome (λ k. k < p.key) Unit previous × All (λ b. b < 256) p.value × Rising (some p.key) ps

validate_params-typed :
    (previous : Option ℕ) (ps : List Param)
    → Rising previous ps
    → validate_params previous (map typed_param ps) ≡ ok tt
unfolding validate_params typed_param
validate_params-typed previous [] h = refl
validate_params-typed none (p ∷ ps) h = ground (
  arith,
  decode_hex-encode_hex p.value h.1,
  bytes_eq_refl (service_parameter_name p.key),
  bytes_eq_refl (encode_hex p.value),
  validate_params-typed (some p.key) ps h.2,
)
validate_params-typed (some k) (p ∷ ps) h = ground (
  arith,
  decode_hex-encode_hex p.value h.1,
  bytes_eq_refl (service_parameter_name p.key),
  bytes_eq_refl (encode_hex p.value),
  validate_params-typed (some p.key) ps h.2,
)

-- The texts of addresses are canonical: netip reads back what it writes.
pub record TextsFit (lib : Library) (c : Checks) : Type 0 where
  pub ipv4 : (ip : Bytes) → c.ipv4_text (lib.ipv4_text ip) ≡ true
  pub ipv6 : (ip : Bytes) → c.ipv6_text (lib.ipv6_text ip) ≡ true

module _ (lib : Library) (c : Checks) where
  abbrev pub Canonical : Bytes → Type 0
  Canonical name = c.canonical (canonical_name lib name) ≡ true

  -- What a resource needs for its record to pass.
  abbrev pub BodyFits : Wire.Body → Type 0
  BodyFits (Wire.Body.cname target) = Canonical target
  BodyFits (Wire.Body.svcb priority target params) = Canonical target × Rising none params
  BodyFits (Wire.Body.https priority target params) = Canonical target × Rising none params
  BodyFits (Wire.Body.soa ns mailbox _ _ _ _ _) = Canonical ns × Canonical mailbox
  BodyFits (Wire.Body.ns target) = Canonical target
  BodyFits _ = Unit

  abbrev pub Fits : Resource → Type 0
  Fits r = Canonical r.name × BodyFits r.body

  module _ (t : TextsFit lib c) where
    answer_record-valid :
        (name : Bytes) (ttl : ℕ) (b : Wire.Body)
        → Canonical name
        → BodyFits b
        → IfSome
            (λ r. validate_record c r ≡ ok tt)
            Unit
            (answer_record lib (canonical_name lib name) ttl b)
    unfolding answer_record address_record service_binding_record validate_record
        validate_service_binding
    answer_record-valid name ttl (Wire.Body.a ip) n f = ground (arith, t.ipv4 ip)
    answer_record-valid name ttl (Wire.Body.aaaa ip) n f = ground (arith, t.ipv6 ip)
    answer_record-valid name ttl (Wire.Body.svcb priority target params) n f =
        ground (arith, validate_params-typed none params f.1)
    answer_record-valid name ttl (Wire.Body.https priority target params) n f =
        ground (arith, validate_params-typed none params f.1)
    answer_record-valid name ttl (Wire.Body.cname target) n f = ground arith
    answer_record-valid name ttl _ n f = ground arith

    pub answer_records-valid :
        (rs : List Resource)
        → All Fits rs
        → check_all (validate_record c) (answer_records lib rs) ≡ ok tt
    unfolding answer_records check_all
    answer_records-valid [] f = refl
    answer_records-valid (r ∷ rs) f =
        ground
          (arith, answer_records-valid rs f.1, answer_record-valid r.name r.ttl r.body f.0.0 f.0.1)

  pub length-answer_records : (rs : List Resource) → length (answer_records lib rs) ≤ length rs
  unfolding answer_records
  length-answer_records [] = omega arith
  length-answer_records (r ∷ rs) = ground (arith, length-answer_records rs)

  -- The authority section: a valid first SOA, and valid NS records, no more than the resources.
  pub record AuthorityFits (n : ℕ) (a : Authority) : Type 0 where
    pub soa_valid : IfSome (λ s. validate_soa c s ≡ ok tt) Unit a.soa
    pub ns_valid : All (λ s. validate_ns_record c s ≡ ok tt) a.ns
    pub ns_bounded : length a.ns ≤ n

  soa_record-valid :
      (name : Bytes) (ttl : ℕ) (b : Wire.Body)
      → Canonical name
      → BodyFits b
      → IfSome (λ s. validate_soa c s ≡ ok tt) Unit (soa_record lib name ttl b)
  unfolding soa_record validate_soa
  soa_record-valid name ttl (Wire.Body.soa ns mailbox _ _ _ _ _) n f = ground arith
  soa_record-valid name ttl _ n f = tt

  ns_record-valid :
      (name : Bytes) (ttl : ℕ) (b : Wire.Body)
      → Canonical name
      → BodyFits b
      → IfSome (λ s. validate_ns_record c s ≡ ok tt) Unit (ns_record lib name ttl b)
  unfolding ns_record validate_ns_record
  ns_record-valid name ttl (Wire.Body.ns target) n f = ground arith
  ns_record-valid name ttl _ n f = tt

  authority_step-AuthorityFits :
      (r : Resource) (n : ℕ) (a : Authority)
      → Fits r
      → AuthorityFits n a
      → AuthorityFits (n + 1) (authority_step lib r a)
  unfolding authority_step
  authority_step-AuthorityFits r n a f h = elim (Bool-cases (r.class == class_inet)) [
    | inr other ↦ record {
      soa_valid = ground arith;
      ns_valid = ground arith;
      ns_bounded = ground arith;
    }
    | inl inet ↦ record {
      soa_valid = ground (arith, soa_record-valid r.name r.ttl r.body f.0 f.1);
      ns_valid = elim (Option-cases (ns_record lib r.name r.ttl r.body)) [
        | inl e ↦ ground arith
        | inr (x, e) ↦
            let grown : (authority_step lib r a).ns ≡ a.ns ++ x ∷ [] = ground arith in
            rw grown (
              All-append (λ s. validate_ns_record c s ≡ ok tt) a.ns (x ∷ []) h.ns_valid
                (rw e at (ns_record-valid r.name r.ttl r.body f.0 f.1), tt))
      ];
      ns_bounded = elim (Option-cases (ns_record lib r.name r.ttl r.body)) [
        | inl e ↦ ground arith
        | inr (x, e) ↦ ground (arith, length-append a.ns (x ∷ []))
      ];
    }
  ]

  authority_loop-AuthorityFits :
      (rs : List Resource) (n : ℕ) (a : Authority)
      → All Fits rs
      → AuthorityFits n a
      → AuthorityFits (n + length rs) (authority_loop lib rs a)
  unfolding authority_loop
  authority_loop-AuthorityFits [] n a f h = record {
    soa_valid = h.soa_valid;
    ns_valid = h.ns_valid;
    ns_bounded = omega arith;
  }
  authority_loop-AuthorityFits (r ∷ rs) n a f h =
      let rest =
        authority_loop-AuthorityFits rs (n + 1) (authority_step lib r a) f.1
          (authority_step-AuthorityFits r n a f.0 h) in
      record {
        soa_valid = rest.soa_valid;
        ns_valid = rest.ns_valid;
        ns_bounded = omega (arith, rest.ns_bounded);
      }

  pub authority-valid :
      (rs : List Resource)
      → All Fits rs
      → AuthorityFits (length rs) (authority_loop lib rs (record { soa = none; ns = [] }))
  authority-valid rs f =
      let a =
        authority_loop-AuthorityFits rs 0 (record { soa = none; ns = [] }) f
          (record { soa_valid = tt; ns_valid = tt; ns_bounded = omega arith }) in
      record {
        soa_valid = a.soa_valid;
        ns_valid = a.ns_valid;
        ns_bounded = omega (arith, a.ns_bounded);
      }
