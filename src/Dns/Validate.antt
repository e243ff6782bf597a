-- ===== src/Dns/Validate.antt =====
-- The checks of internal/dnsobservation/validate.go on the evidence of a successful observation.
use reachrun.Prelude.{
  ℕ, ◌+◌, Bool, true, false, not, ◌&&◌, ◌||◌, Option, none, some, List, [], ◌∷◌, ltb, leb, ◌==◌,
  if◌then◌else◌, Bytes, bytes_eq, length, is_empty, Result, ok, err, ◌>>◌, reject_if, check_all,
  encode_hex, decode_hex,
}
use reachrun.Dns.Types
use reachrun.Dns.Types.{
  QueryType, query_type_eq, AnswerKind, answer, no_data, name_error, referral, rcode_error,
  incomplete, ServiceParameter, ServiceBinding, Record, SoaRecord, NsRecord, Evidence, Input,
  max_dns_message_bytes, max_response_records,
}
use reachrun.Dns.Wire.{rcode_success, rcode_name_error}
use reachrun.Dns.Cnames.{follow_cnames}
use reachrun.Dns.Evidence.{
  response_code_name, service_parameter_name, has_requested, wanted_name, has_value, keeps_soa,
}

pub data Invalid : Type 0 where
  wrong_rcode_name response_size no_endpoint wrong_endpoint doh_status : Invalid
  truncated_complete too_many_records bad_record bad_ns bad_soa unexpected_soa : Invalid
  bad_effective_name wrong_effective_name wrong_code : Invalid
  not_incomplete not_complete missing_answer unexpected_answer is_referral not_referral : Invalid
  bad_binding bad_parameters : Invalid

-- What the checks call of the standard library, and `isCanonicalDNSName`: whether a text is the
-- canonical text of an IPv4 or an IPv6 address.
pub record Checks : Type 0 where
  pub canonical : Bytes → Bool
  pub ipv4_text : Bytes → Bool
  pub ipv6_text : Bytes → Bool

pub validate_answer_kind : AnswerKind → ℕ → Result Invalid Unit
validate_answer_kind answer code = reject_if (not (code == rcode_success)) wrong_code
validate_answer_kind no_data code = reject_if (not (code == rcode_success)) wrong_code
validate_answer_kind referral code = reject_if (not (code == rcode_success)) wrong_code
validate_answer_kind name_error code = reject_if (not (code == rcode_name_error)) wrong_code
validate_answer_kind rcode_error code =
    reject_if (code == rcode_success || code == rcode_name_error) wrong_code
validate_answer_kind incomplete code = ok tt

-- The switch that ends `validateEvidenceClassification`.
validate_complete : AnswerKind → Bool → Evidence → Result Invalid Unit
validate_complete answer requested e = reject_if (not requested) missing_answer
validate_complete no_data requested e = do
  reject_if requested unexpected_answer
  reject_if (not (is_empty e.authority_ns) && not (has_value e.negative_soa)) is_referral
validate_complete referral requested e = do
  reject_if requested unexpected_answer
  reject_if (is_empty e.authority_ns) not_referral
  reject_if (has_value e.negative_soa) unexpected_soa
validate_complete rcode_error requested e = reject_if (has_value e.negative_soa) unexpected_soa
validate_complete _ requested e = ok tt

abbrev pub is_incomplete : AnswerKind → Bool
is_incomplete incomplete = true
is_incomplete _ = false

-- Behind the checks on the effective name.
unfoldable pub validate_kind : Input → Evidence → Bytes → Bool → Result Invalid Unit
unfolding validate_answer_kind validate_complete
validate_kind input e effective chain_complete = do
  validate_answer_kind e.answer_kind e.rcode.code
  if is_incomplete e.answer_kind
      then (do
        reject_if (not e.flags.truncated && chain_complete) not_incomplete
        reject_if (has_value e.negative_soa) unexpected_soa)
      else (do
        reject_if (e.flags.truncated || not chain_complete) not_complete
        validate_complete e.answer_kind
            (has_requested input.query_type (wanted_name input.query_type input.hostname effective)
              e.records)
            e)

-- Keys rise strictly behind `previous`.
unfoldable pub validate_params : Option ℕ → List ServiceParameter → Result Invalid Unit
validate_params previous [] = ok tt
validate_params previous (p ∷ ps) = do
  reject_if (elim previous [ none ↦ false | some key ↦ leb p.key key ]) bad_parameters
  reject_if (not (bytes_eq p.name (service_parameter_name p.key))) bad_parameters
  elim (decode_hex p.value_hex) [
    | none ↦ err bad_parameters
    | some value ↦ reject_if (not (bytes_eq (encode_hex value) p.value_hex)) bad_parameters
  ]
  validate_params (some p.key) ps

abbrev mode_fits : ℕ → Types.BindingMode → Bool
mode_fits priority Types.BindingMode.alias = priority == 0
mode_fits priority Types.BindingMode.service = not (priority == 0)

abbrev is_ipv4 : Types.IpFamily → Bool
is_ipv4 Types.IpFamily.ipv4 = true
is_ipv4 _ = false

abbrev is_ipv6 : Types.IpFamily → Bool
is_ipv6 Types.IpFamily.ipv6 = true
is_ipv6 _ = false

abbrev is_no_family : Types.IpFamily → Bool
is_no_family Types.IpFamily.none = true
is_no_family _ = false

-- A 2xx status over DoH, and none over the wire.
abbrev pub doh_status_fits : Types.Transport → ℕ → Bool
doh_status_fits Types.Transport.doh status = leb 200 status && ltb status 300
doh_status_fits _ status = status == 0

module _ (c : Checks) where
  unfoldable pub validate_service_binding : ServiceBinding → Result Invalid Unit
  validate_service_binding b = do
    reject_if (not (c.canonical b.target)) bad_binding
    reject_if b.params_nil bad_binding
    reject_if (not (mode_fits b.priority b.mode)) bad_binding
    validate_params none b.params

  validate_binding_record : Record → Result Invalid Unit
  validate_binding_record r = do
    reject_if
        (not (is_empty r.address)
          || not (is_no_family r.family)
          || not (is_empty r.target)
          || not (has_value r.service))
        bad_record
    elim r.service [ none ↦ ok tt | some b ↦ validate_service_binding b ]

  validate_typed : QueryType → Record → Result Invalid Unit
  unfolding validate_binding_record
  validate_typed Types.QueryType.a r = do
    reject_if (not (c.ipv4_text r.address)) bad_record
    reject_if (not (is_ipv4 r.family) || not (is_empty r.target) || has_value r.service) bad_record
  validate_typed Types.QueryType.aaaa r = do
    reject_if (not (c.ipv6_text r.address)) bad_record
    reject_if (not (is_ipv6 r.family) || not (is_empty r.target) || has_value r.service) bad_record
  validate_typed Types.QueryType.cname r =
      reject_if
        (not (is_empty r.address)
          || not (is_no_family r.family)
          || has_value r.service
          || not (c.canonical r.target))
        bad_record
  validate_typed Types.QueryType.svcb r = validate_binding_record r
  validate_typed Types.QueryType.https r = validate_binding_record r
  validate_typed (Types.QueryType.unsupported _) r = err bad_record

  unfoldable pub validate_record : Record → Result Invalid Unit
  unfolding validate_typed
  validate_record r = do reject_if (not (c.canonical r.name)) bad_record; validate_typed r.type r

  unfoldable pub validate_soa : SoaRecord → Result Invalid Unit
  validate_soa s =
      reject_if (not (c.canonical s.name) || not (c.canonical s.ns) || not (c.canonical s.mailbox))
        bad_soa

  unfoldable pub validate_ns_record : NsRecord → Result Invalid Unit
  validate_ns_record n = reject_if (not (c.canonical n.name) || not (c.canonical n.target)) bad_ns

  unfoldable pub validate_evidence_classification : Input → Evidence → Result Invalid Unit
  validate_evidence_classification input e = do
    reject_if (is_empty e.effective_name || not (c.canonical e.effective_name)) bad_effective_name
    let followed = follow_cnames input.hostname e.records
    reject_if (not (bytes_eq e.effective_name followed.0)) wrong_effective_name
    validate_kind input e followed.0 followed.1

  -- The checks of `Validate` on the evidence of a succeeded observation. `remote_valid` is whether
  -- `validateRemoteEndpoint` returns nil.
  unfoldable pub validate_evidence : Bool → Input → Evidence → Result Invalid Unit
  validate_evidence remote_valid input e = do
    reject_if (not (bytes_eq e.rcode.name (response_code_name e.rcode.code))) wrong_rcode_name
    reject_if (e.response_bytes == 0 || ltb max_dns_message_bytes e.response_bytes) response_size
    reject_if (is_empty e.remote_endpoint) no_endpoint
    reject_if (not remote_valid) wrong_endpoint
    reject_if (not (doh_status_fits input.transport e.doh_status)) doh_status
    reject_if (e.flags.truncated && not (is_incomplete e.answer_kind)) truncated_complete
    reject_if (ltb max_response_records (length e.records)) too_many_records
    check_all validate_record e.records
    reject_if (ltb max_response_records (length e.records + length e.authority_ns)) too_many_records
    check_all validate_ns_record e.authority_ns
    reject_if (has_value e.negative_soa && not (keeps_soa e.answer_kind)) unexpected_soa
    elim e.negative_soa [ none ↦ ok tt | some s ↦ validate_soa s ]
    validate_evidence_classification input e
