-- ===== src/Dns/Evidence.antt =====
-- evidenceFromResponse and what it calls, of internal/dnsobservation/message.go.
pub mod Classified
pub mod Records
pub mod Complete
use reachrun.Prelude.{
  ℕ, Bool, true, false, not, ◌&&◌, ◌||◌, Option, none, some, List, [], ◌∷◌, ◌++◌, ltb, ◌==◌,
  if◌then◌else◌, Bytes, codes, bytes_eq, decimal, encode_hex, trim_suffix, is_empty, map,
}
use reachrun.Dns.Types
use reachrun.Dns.Types.{
  QueryType, query_type_eq, AnswerKind, answer, no_data, name_error, referral, rcode_error,
  incomplete, BindingMode, ServiceParameter, ServiceBinding, Record, SoaRecord, NsRecord, Evidence,
  Input,
}
use reachrun.Dns.Wire
use reachrun.Dns.Wire.{
  Header, Param, Resource, class_inet, type_opt, rcode_success, rcode_name_error,
}
use reachrun.Dns.Decode.{ParsedResponse}
use reachrun.Dns.Cnames.{follow_cnames}

-- The parts of the standard library and of dnsmessage that the functions below call and the source
-- does not define: `strings.ToLower`, the text of an address of 4 and of 16 bytes, and
-- `ResourceHeader.ExtendedRCode` on the TTL of an OPT record.
pub record Library : Type 0 where
  pub to_lower : Bytes → Bytes
  pub ipv4_text : Bytes → Bytes
  pub ipv6_text : Bytes → Bytes
  pub extended_rcode : ℕ → ℕ → ℕ

unfoldable pub response_code_name : ℕ → Bytes
response_code_name rcode =
    if rcode == 0
    then codes "NOERROR"
    else if rcode == 1
    then codes "FORMERR"
    else if rcode == 2
    then codes "SERVFAIL"
    else if rcode == 3
    then codes "NXDOMAIN"
    else if rcode == 4
    then codes "NOTIMP"
    else if rcode == 5
    then codes "REFUSED"
    else codes "RCODE" ++ decimal rcode

unfoldable pub service_parameter_name : ℕ → Bytes
service_parameter_name key =
    if key == 0
    then codes "mandatory"
    else if key == 1
    then codes "alpn"
    else if key == 2
    then codes "no-default-alpn"
    else if key == 3
    then codes "port"
    else if key == 4
    then codes "ipv4hint"
    else if key == 5
    then codes "ech"
    else if key == 6
    then codes "ipv6hint"
    else if key == 7
    then codes "dohpath"
    else if key == 8
    then codes "ohttp"
    else if key == 9
    then codes "tls-supported-groups"
    else codes "key" ++ decimal key

unfoldable pub typed_param : Param → ServiceParameter
typed_param p = record {
  key = p.key;
  name = service_parameter_name p.key;
  value_hex = encode_hex p.value;
}

-- The loop that looks for a record of the requested type under the wanted name.
unfoldable pub has_requested : QueryType → Bytes → List Record → Bool
has_requested q wanted [] = false
has_requested q wanted (r ∷ rs) =
    (query_type_eq r.type q && bytes_eq r.name wanted) || has_requested q wanted rs

unfoldable pub wanted_name : QueryType → Bytes → Bytes → Bytes
wanted_name q hostname effective = if query_type_eq q Types.cname then hostname else effective

unfoldable pub classify_answer :
    Header → ℕ → QueryType → Bytes → Bytes → Bool → List Record → Bool → Bool → AnswerKind
classify_answer h rcode q hostname effective complete records has_soa has_ns =
    if h.truncated || not complete
    then incomplete
    else if rcode == rcode_name_error
    then name_error
    else if not (rcode == rcode_success)
    then rcode_error
    else if has_requested q (wanted_name q hostname effective) records
    then answer
    else if not has_soa && has_ns
    then referral
    else no_data

-- The first SOA of the authority section, and its NS records in order.
pub record Authority : Type 0 where
  pub soa : Option SoaRecord
  pub ns : List NsRecord

abbrev pub has_value {ℓ} : {A : Type ℓ} → Option A → Bool
has_value none = false
has_value (some _) = true

-- `kind == AnswerKindNoData || kind == AnswerKindNameError`.
abbrev pub keeps_soa : AnswerKind → Bool
keeps_soa no_data = true
keeps_soa name_error = true
keeps_soa _ = false

module _ (lib : Library) where
  unfoldable pub canonical_name : Bytes → Bytes
  canonical_name value =
      let lower = lib.to_lower value in
      if bytes_eq lower (codes ".") then lower else trim_suffix b'.' lower

  unfoldable pub service_binding_record : Bytes → QueryType → ℕ → ℕ → Bytes → List Param → Record
  service_binding_record name type ttl priority target params = record {
    name = name;
    type = type;
    ttl = ttl;
    address = [];
    family = Types.IpFamily.none;
    target = [];
    service = some (record {
      priority = priority;
      target = canonical_name target;
      mode = if priority == 0 then BindingMode.alias else BindingMode.service;
      params = map typed_param params;
      params_nil = false;
    });
  }

  unfoldable pub address_record : Bytes → QueryType → ℕ → Bytes → Types.IpFamily → Record
  address_record name type ttl address family = record {
    name = name;
    type = type;
    ttl = ttl;
    address = address;
    family = family;
    target = [];
    service = none;
  }

  -- The switch on the body of an answer: the record, if it is of a kind that is kept.
  unfoldable pub answer_record : Bytes → ℕ → Wire.Body → Option Record
  answer_record name ttl (Wire.Body.a ip) =
      some (address_record name Types.QueryType.a ttl (lib.ipv4_text ip) Types.ipv4)
  answer_record name ttl (Wire.Body.aaaa ip) =
      some (address_record name Types.QueryType.aaaa ttl (lib.ipv6_text ip) Types.ipv6)
  answer_record name ttl (Wire.Body.cname target) = some (record {
    name = name;
    type = Types.QueryType.cname;
    ttl = ttl;
    address = [];
    family = Types.IpFamily.none;
    target = canonical_name target;
    service = none;
  })
  answer_record name ttl (Wire.Body.svcb priority target params) =
      some (service_binding_record name Types.QueryType.svcb ttl priority target params)
  answer_record name ttl (Wire.Body.https priority target params) =
      some (service_binding_record name Types.QueryType.https ttl priority target params)
  answer_record name ttl _ = none

  unfoldable pub answer_records : List Resource → List Record
  answer_records [] = []
  answer_records (r ∷ rs) =
      let rest = answer_records rs in
      if not (r.class == class_inet)
      then rest
      else elim (answer_record (canonical_name r.name) r.ttl r.body) [
        | none ↦ rest
        | some kept ↦ kept ∷ rest
      ]

  unfoldable pub soa_record : Bytes → ℕ → Wire.Body → Option SoaRecord
  soa_record name ttl (Wire.Body.soa ns mailbox serial refresh retry expire min_ttl) =
      some (record {
        name = canonical_name name;
        ttl = ttl;
        ns = canonical_name ns;
        mailbox = canonical_name mailbox;
        serial = serial;
        refresh = refresh;
        retry = retry;
        expire = expire;
        min_ttl = min_ttl;
      })
  soa_record name ttl _ = none

  unfoldable pub ns_record : Bytes → ℕ → Wire.Body → Option NsRecord
  ns_record name ttl (Wire.Body.ns target) =
      some (record { name = canonical_name name; ttl = ttl; target = canonical_name target })
  ns_record name ttl _ = none

  -- One round of the loop over the authority section.
  unfoldable pub authority_step : Resource → Authority → Authority
  authority_step r s = if not (r.class == class_inet) then s else record {
    soa = elim s.soa [ none ↦ soa_record r.name r.ttl r.body | some first ↦ some first ];
    ns = elim (ns_record r.name r.ttl r.body) [ none ↦ s.ns | some n ↦ s.ns ++ n ∷ [] ];
  }

  unfoldable pub authority_loop : List Resource → Authority → Authority
  authority_loop [] s = s
  authority_loop (r ∷ rs) s = authority_loop rs (authority_step r s)

  -- The code of the header, extended by the first OPT record.
  unfoldable pub response_rcode : ℕ → List Resource → ℕ
  response_rcode rcode [] = rcode
  response_rcode rcode (r ∷ rs) =
      let rest = response_rcode rcode rs in
      if r.type == type_opt then lib.extended_rcode r.ttl rcode else rest

  unfoldable pub evidence_from_response : ParsedResponse → Input → ℕ → Bytes → ℕ → Evidence
  evidence_from_response parsed input response_bytes remote_endpoint doh_status =
      let h = parsed.header in
      let rcode = response_rcode h.rcode parsed.additionals in
      let records = answer_records parsed.answers in
      let authority = authority_loop parsed.authorities (record { soa = none; ns = [] }) in
      let (effective, chain_complete) = follow_cnames input.hostname records in
      let kind =
        classify_answer h rcode input.query_type input.hostname effective
          (chain_complete && parsed.body_complete) records (has_value authority.soa)
          (not (is_empty authority.ns)) in
      record {
        rcode = record { code = rcode; name = response_code_name rcode };
        flags = record {
          authoritative = h.authoritative;
          truncated = h.truncated;
          recursion_desired = h.recursion_desired;
          recursion_available = h.recursion_available;
          authenticated_data = h.authentic_data;
          checking_disabled = h.checking_disabled;
        };
        answer_kind = kind;
        effective_name = effective;
        records = records;
        negative_soa = if keeps_soa kind then authority.soa else none;
        authority_ns = authority.ns;
        response_bytes = response_bytes;
        remote_endpoint = remote_endpoint;
        doh_status = doh_status;
      }
