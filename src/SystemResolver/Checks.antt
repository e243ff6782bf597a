-- ===== src/SystemResolver/Checks.antt =====
-- normalizeHostname of internal/platform/systemresolver/resolver.go, and Validate of validate.go.
use reachrun.Prelude.{
  Bool, true, false, not, ◌||◌, Option, none, some, List, [], ◌∷◌, if◌then◌else◌, Bytes, bytes_eq,
  is_empty, Result, ok, err, ◌>>=◌, ◌>>◌, reject_if,
}
use reachrun.Probe.{Outcome, Failure, failure_cancelled, validate, EnvelopeError}
use reachrun.Dns.Hostname.{any_byte, is_delimiter}
use reachrun.NetTarget.Address.{NetLibrary, Addr, is4, unmap, addr_eq}
use reachrun.NetTarget.Hostname.{has_addr}
use reachrun.SystemResolver.{
  Family, ipv4, ipv6, family_eq, Address, Evidence, Resolution, kind_system_resolution,
  failure_invalid_input, failure_name_unresolved, failure_timeout, failure_resolution_failure,
}

pub data HostnameError : Type 0 where
  empty ip_literal has_delimiter : HostnameError

pub data Invalid : Type 0 where
  envelope : EnvelopeError → Invalid
  wrong_probe failure_code not_normalized no_invalid_input invalid_input : Invalid
  no_addresses bad_address not_canonical wrong_family duplicate : Invalid

abbrev pub from_envelope : Result EnvelopeError Unit → Result Invalid Unit
from_envelope (ok _) = ok tt
from_envelope (err why) = err (envelope why)

unfoldable pub valid_failure_code : Bytes → Bool
valid_failure_code code =
    bytes_eq code failure_invalid_input
    || bytes_eq code failure_name_unresolved
    || bytes_eq code failure_timeout
    || bytes_eq code failure_resolution_failure
    || bytes_eq code failure_cancelled

abbrev pub failure_is : (Bytes → Bool) → Option Failure → Bool
failure_is p none = false
failure_is p (some f) = p f.code

abbrev pub is_failed : Outcome → Bool
is_failed Outcome.failed = true
is_failed _ = false

abbrev pub family_of : Addr → Family
family_of a = if is4 a then ipv4 else ipv6

-- A Go map keyed by addresses.
unfoldable pub contains_addr : Addr → List Addr → Bool
contains_addr a [] = false
contains_addr a (b ∷ bs) = addr_eq b a || contains_addr a bs

module _ (lib : NetLibrary) where
  unfoldable pub check_hostname : Bytes → Option HostnameError
  check_hostname hostname =
      if is_empty hostname
      then some empty
      else if has_addr (lib.parse_addr hostname)
      then some ip_literal
      else if any_byte is_delimiter hostname || lib.has_space hostname
      then some has_delimiter
      else none

  -- The text comes back beside an error too.
  abbrev pub normalize_hostname : Bytes → Bytes × Option HostnameError
  normalize_hostname value = (lib.trim_space value, check_hostname (lib.trim_space value))

  unfoldable pub validate_address : List Addr → Address → Result Invalid Addr
  validate_address seen address = elim (lib.parse_addr address.ip) [
    | none ↦ err bad_address
    | some parsed ↦ do
      reject_if (not (bytes_eq address.ip (lib.addr_text (unmap parsed)))) not_canonical
      reject_if (not (family_eq address.family (family_of (unmap parsed)))) wrong_family
      reject_if (contains_addr (unmap parsed) seen) duplicate
      ok (unmap parsed)
  ]

  unfoldable pub validate_addresses : List Addr → List Address → Result Invalid Unit
  validate_addresses seen [] = ok tt
  validate_addresses seen (a ∷ as') = do
    parsed ← validate_address seen a
    validate_addresses (parsed ∷ seen) as'

  unfoldable pub check_outcome : Outcome → Option Evidence → Result Invalid Unit
  check_outcome Outcome.succeeded (some e) = do
    reject_if (is_empty e.addresses) no_addresses
    validate_addresses [] e.addresses
  check_outcome Outcome.succeeded none = err no_addresses
  check_outcome _ evidence = ok tt

  -- The checks on a valid hostname.
  unfoldable pub validate_evidence : Resolution → Result Invalid Unit
  validate_evidence r = do
    reject_if (failure_is (bytes_eq failure_invalid_input) r.failure) invalid_input
    check_outcome r.outcome r.evidence

  unfoldable pub validate_hostname : Resolution → Result Invalid Unit
  validate_hostname r = elim (check_hostname (lib.trim_space r.input.hostname)) [
    | some _ ↦
        reject_if
          (not (is_failed r.outcome) || not (failure_is (bytes_eq failure_invalid_input) r.failure))
          no_invalid_input
    | none ↦ validate_evidence r
  ]

  unfoldable pub validate_resolution : Resolution → Result Invalid Unit
  validate_resolution r = do
    from_envelope (validate r)
    reject_if (not (bytes_eq r.probe kind_system_resolution)) wrong_probe
    reject_if (failure_is (λ c. not (valid_failure_code c)) r.failure) failure_code
    reject_if (not (bytes_eq (lib.trim_space r.input.hostname) r.input.hostname)) not_normalized
    validate_hostname r
