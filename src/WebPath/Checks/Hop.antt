-- ===== src/WebPath/Checks/Hop.antt =====
-- validateHop, addressSet, successfulAttempt and exhaustedPublicCandidates of
-- internal/webpath/validate.go.
use reachrun.Prelude.{
  ℕ, ◌+◌, Bool, true, false, not, ◌&&◌, ◌||◌, Option, none, some, List, [], ◌∷◌, ltb, ◌==◌,
  if◌then◌else◌, Bytes, bytes_eq, is_empty, length, Result, ok, err, ◌>>=◌, ◌>>◌, reject_if,
}
use mathlib.Core.Option
use reachrun.Probe.{Platform, Outcome, platform_eq}
use reachrun.NetTarget.Address.{Addr, unmap}
use reachrun.NetTarget.Hostname.{WebHostnameError, normalize_web_hostname}
use reachrun.NetTarget.PublicIp.{IpError, normalize_public_ip}
use reachrun.NetTarget.RequestTarget.{Url, escaped_path}
use reachrun.SystemResolver
use reachrun.SystemResolver.{Address, Resolution}
use reachrun.SystemResolver.Checks.{contains_addr, is_failed}
use reachrun.WebObservation.{Family, family_eq, scheme_of, Observation, HttpObservation}
use reachrun.WebPath.{Hop, candidate_limit_per_family}
use reachrun.WebPath.Redirect.{is_web_scheme}
use reachrun.WebPath.Candidates.{select_public_candidates}
use reachrun.WebPath.Hops.{World, host_of, is_valid_observation, is_valid_resolution}

pub data HopInvalid : Type 0 where
  bad_url not_canonical scheme port hostname no_path resolution other_platform : HopInvalid
  other_hostname no_attempts unresolved_attempts bad_attempt attempt_platform attempt_request :
      HopInvalid
  bad_dial_ip out_of_order not_resolved not_public repeated family_limit : HopInvalid
  not_terminal : HopInvalid

abbrev pub succeeded : Outcome → Bool
succeeded Outcome.succeeded = true
succeeded _ = false

abbrev pub is_cancelled : Outcome → Bool
is_cancelled Outcome.cancelled = true
is_cancelled _ = false

abbrev pub has_error : Option IpError → Bool
has_error none = false
has_error (some _) = true

abbrev pub last_attempt : List Observation → Option Observation
last_attempt [] = none
last_attempt (r ∷ []) = some r
last_attempt (r ∷ s ∷ rest) = last_attempt (s ∷ rest)

-- `successfulAttempt`, and the response of it. The attempts have passed their checks, so that a success
-- has evidence.
abbrev pub response_if_succeeded : Option Observation → Option HttpObservation
response_if_succeeded none = none
response_if_succeeded (some r) = elim (succeeded r.outcome) [
  | true ↦ Option.map (λ e. e.http) r.evidence
  | false ↦ none
]

unfoldable pub successful_attempt : Hop → Option HttpObservation
successful_attempt hop = response_if_succeeded (last_attempt hop.attempts)

abbrev pub all_failed : List Observation → Bool
all_failed [] = true
all_failed (r ∷ rest) = is_failed r.outcome && all_failed rest

abbrev is_none : Option HttpObservation → Bool
is_none none = true
is_none (some _) = false

-- How often a family was dialled.
abbrev pub count_family : Family → List Family → ℕ
count_family f [] = 0
count_family f (g ∷ gs) = let rest = count_family f gs in if family_eq g f then rest + 1 else rest

-- What the loop over the attempts keeps: the addresses dialled, and their families.
pub record Seen : Type 0 where
  pub attempted : List Addr
  pub families : List Family

abbrev pub valid_hostname : Bytes × Result WebHostnameError Unit → Bytes → Bool
valid_hostname (name, ok _) text = bytes_eq name text
valid_hostname (name, err _) text = false

-- A successful or a cancelled attempt is the last.
abbrev pub terminal_position : Outcome → List Observation → Result HopInvalid Unit
terminal_position outcome rest =
    reject_if ((succeeded outcome || is_cancelled outcome) && not (is_empty rest)) not_terminal

abbrev pub read_url : Option Url → Result HopInvalid Url
read_url none = err bad_url
read_url (some u) = ok u

-- `Resolution.Evidence.Addresses`. The checks read it of a resolution that has passed Validate and that
-- succeeded, which has evidence.
abbrev pub addresses_of : Option SystemResolver.Evidence → List Address
addresses_of (some e) = e.addresses
addresses_of none = []

module _ (w : World) where
  unfoldable pub candidates_of : Resolution → List Bytes
  candidates_of r = elim (succeeded r.outcome) [
    | true ↦ select_public_candidates w.net (addresses_of r.evidence)
    | false ↦ []
  ]

  abbrev pub parsed_addresses : List Address → List Addr
  parsed_addresses [] = []
  parsed_addresses (a ∷ rest) = elim (w.net.parse_addr a.ip) [
    | none ↦ parsed_addresses rest
    | some parsed ↦ unmap parsed ∷ parsed_addresses rest
  ]

  abbrev pub address_set : Resolution → List Addr
  address_set r = elim (succeeded r.outcome) [
    | true ↦ parsed_addresses (addresses_of r.evidence)
    | false ↦ []
  ]

  unfoldable pub exhausted_public_candidates : Hop → Bool
  exhausted_public_candidates hop =
      succeeded hop.resolution.outcome
      && is_none (successful_attempt hop)
      && not (is_empty (candidates_of hop.resolution))
      && (length hop.attempts == length (candidates_of hop.resolution))
      && all_failed hop.attempts

  unfoldable pub validate_url : Bytes → Url → Result HopInvalid Unit
  validate_url text u = do
    reject_if
        (not (bytes_eq (w.urls.text u) text)
          || u.has_user
          || not (is_empty u.fragment)
          || not (is_empty u.opaque))
        not_canonical
    reject_if (not (is_web_scheme (scheme_of u.scheme))) scheme
    reject_if (not (is_empty (w.urls.host_port u.host))) port
    reject_if (not (valid_hostname (normalize_web_hostname w.net (host_of w u)) (host_of w u)))
        hostname
    reject_if (is_empty (escaped_path w.urls u)) no_path

  unfoldable pub validate_hop_resolution : Platform → Url → Hop → Result HopInvalid Unit
  validate_hop_resolution platform u hop = do
    reject_if (not (is_valid_resolution w hop.resolution)) resolution
    reject_if (not (platform_eq hop.resolution.platform platform)) other_platform
    reject_if (not (bytes_eq hop.resolution.input.hostname (host_of w u))) other_hostname
    reject_if hop.attempts_nil no_attempts
    reject_if (not (succeeded hop.resolution.outcome) && not (is_empty hop.attempts))
        unresolved_attempts

  unfoldable pub validate_request : Platform → Url → Observation → Result HopInvalid Unit
  validate_request platform u r = do
    reject_if (not (is_valid_observation w r)) bad_attempt
    reject_if (not (platform_eq r.platform platform)) attempt_platform
    reject_if
        (not (bytes_eq r.input.scheme u.scheme)
          || not (bytes_eq r.input.hostname (host_of w u))
          || not (bytes_eq r.input.path (escaped_path w.urls u))
          || not (bytes_eq r.input.raw_query u.raw_query))
        attempt_request

  -- The checks on the address that was dialled.
  unfoldable pub validate_address :
      List Addr → Bytes → Seen → Bytes → Family → Addr → Result HopInvalid Unit
  validate_address resolved candidate seen dial_ip family address = do
    reject_if (not (bytes_eq dial_ip candidate)) out_of_order
    reject_if (not (contains_addr address resolved)) not_resolved
    reject_if (has_error (normalize_public_ip w.net (w.net.addr_text address)).error) not_public
    reject_if (contains_addr address seen.attempted) repeated
    reject_if (ltb candidate_limit_per_family (count_family family (family ∷ seen.families)))
        family_limit

  abbrev pub dialled : Bytes → Result HopInvalid Addr
  dialled dial_ip = elim (w.net.parse_addr dial_ip) [
    | none ↦ err bad_dial_ip
    | some address ↦ ok (unmap address)
  ]

  -- The loop over the attempts. The list of candidates moves with the index.
  unfoldable pub validate_attempts :
      Platform → Url → List Addr → List Bytes → Seen → List Observation → Result HopInvalid Unit
  validate_attempts platform u resolved candidates seen [] = ok tt
  validate_attempts platform u resolved [] seen (r ∷ rest) = do
    validate_request platform u r
    address ← dialled r.input.dial_ip
    err out_of_order
  validate_attempts platform u resolved (candidate ∷ candidates) seen (r ∷ rest) = do
    validate_request platform u r
    address ← dialled r.input.dial_ip
    validate_address resolved candidate seen r.input.dial_ip r.input.family address
    terminal_position r.outcome rest
    validate_attempts platform u resolved candidates
        (record { attempted = address ∷ seen.attempted; families = r.input.family ∷ seen.families })
        rest

  -- A list in which every success is the last holds one at most, so the count behind the loop is left out.
  unfoldable pub validate_hop : Platform → Hop → Result HopInvalid Url
  validate_hop platform hop = do
    u ← read_url (w.urls.parse hop.url)
    validate_url hop.url u
    validate_hop_resolution platform u hop
    validate_attempts platform u (address_set hop.resolution) (candidates_of hop.resolution)
        (record { attempted = []; families = [] }) hop.attempts
    ok u
