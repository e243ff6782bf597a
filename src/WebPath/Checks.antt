-- ===== src/WebPath/Checks.antt =====
-- internal/webpath/validate.go: the check of a report from its own text.
pub mod Hop
pub mod Transitions
use reachrun.Prelude.{
  ℕ, ◌+◌, Bool, true, false, not, ◌&&◌, ◌||◌, Option, none, some, List, [], ◌∷◌, ◌++◌, ltb, leb,
  ◌==◌, if◌then◌else◌, Bytes, codes, bytes_eq, is_empty, length, is_negative, Result, ok, err,
  ◌>>=◌, ◌>>◌, reject_if,
}
use reachrun.NetTarget.RequestTarget.{Url}
use reachrun.Probe.{Platform}
use reachrun.WebPath
use reachrun.WebPath.{
  Status, completed, stopped, StopReason, final_response, invalid_input, resolution_failed,
  no_public_candidates, all_candidates_failed, redirect_location_unavailable,
  redirect_target_invalid, redirect_target_unsafe, redirect_loop, redirect_limit, path_timeout,
  invalid_probe_evidence, Input, Report, is_silent, max_redirects, candidate_limit_per_family,
  schema_version, operation,
}
use reachrun.WebPath.Hops.{World}
use reachrun.WebPath.Observe.{normalize_input}
use reachrun.WebPath.Checks.Hop.{validate_hop, exhausted_public_candidates}
use reachrun.WebPath.Checks.Transitions.{
  Invalid, no_time, not_utc, negative_duration, no_platform, redirects, input, schema,
  invalid_hostname, valid_hostname, terminal_pair, completed_detail, too_many_hops, first_hop,
  bad_hop, fallback_evidence, redirect_count, fallback_hop, Parsed, is_interrupted,
  count_transitions, validate_terminal_evidence,
}

unfoldable pub validate_terminal_pair : Status → StopReason → Result Invalid Unit
validate_terminal_pair completed final_response = ok tt
validate_terminal_pair completed _ = err terminal_pair
validate_terminal_pair Status.cancelled StopReason.cancelled = ok tt
validate_terminal_pair Status.cancelled _ = err terminal_pair
validate_terminal_pair stopped final_response = err terminal_pair
validate_terminal_pair stopped StopReason.cancelled = err terminal_pair
validate_terminal_pair stopped (StopReason.unsupported _) = err terminal_pair
validate_terminal_pair stopped _ = ok tt
validate_terminal_pair (Status.unsupported _) _ = err terminal_pair

unfoldable pub input_eq : Input → Input → Bool
input_eq a b =
    bytes_eq a.hostname b.hostname
    && bytes_eq a.initial_url b.initial_url
    && bytes_eq a.method b.method
    && (a.redirect_limit == b.redirect_limit)
    && (a.candidate_limit_per_family == b.candidate_limit_per_family)

abbrev pub stops_invalid : Status → StopReason → Bool
stops_invalid stopped invalid_input = true
stops_invalid _ _ = false

abbrev pub is_completed : Status → Bool
is_completed completed = true
is_completed _ = false

abbrev pub first_url : Bytes → List WebPath.Hop → Bool
first_url url [] = true
first_url url (hop ∷ _) = bytes_eq hop.url url

-- `maximumHops`.
abbrev pub hop_limit : Bool → ℕ
hop_limit fallback = if fallback then max_redirects + 2 else max_redirects + 1

abbrev envelope_of : Report → Result Invalid Unit
envelope_of r = do
  reject_if (not (r.schema == schema_version)) schema
  reject_if (not (bytes_eq r.operation operation)) Invalid.operation
  reject_if r.observed_at.is_zero no_time
  reject_if (not r.observed_at.offset_is_zero) not_utc
  reject_if (is_negative r.duration_ms) negative_duration
  reject_if (is_empty r.platform.os || is_empty r.platform.arch) no_platform
  reject_if (ltb max_redirects r.redirects_followed) redirects

abbrev pub fallback_missing : Bool → ℕ → Status → StopReason → Bool
fallback_missing fallback hops status reason =
    fallback && ltb hops 2 && not (is_interrupted status reason)

module _ (w : World) where
  unfoldable pub validate_hops : Platform → List WebPath.Hop → Result Invalid (List Parsed)
  validate_hops platform [] = ok []
  validate_hops platform (hop ∷ rest) = elim (validate_hop w platform hop) [
    | err _ ↦ err bad_hop
    | ok u ↦ do parsed ← validate_hops platform rest; ok ((hop, u) ∷ parsed)
  ]

  abbrev pub starts_exhausted : List WebPath.Hop → Bool
  starts_exhausted [] = false
  starts_exhausted (hop ∷ _) = exhausted_public_candidates w hop

  -- The checks on a report for a valid hostname.
  unfoldable pub validate_path : Report → Result Invalid Unit
  validate_path r = do
    reject_if (stops_invalid r.status r.stop_reason) valid_hostname
    validate_terminal_pair r.status r.stop_reason
    reject_if (is_completed r.status && not (is_silent r.detail)) completed_detail
    reject_if (ltb (hop_limit r.http_fallback_used) (length r.hops)) too_many_hops
    reject_if (not (first_url r.input.initial_url r.hops)) first_hop
    parsed ← validate_hops r.platform r.hops
    reject_if (r.http_fallback_used && not (starts_exhausted r.hops)) fallback_evidence
    count ← count_transitions w r.http_fallback_used r.input.hostname parsed
    reject_if (not (count == r.redirects_followed)) redirect_count
    reject_if (fallback_missing r.http_fallback_used (length r.hops) r.status r.stop_reason)
        fallback_hop
    validate_terminal_evidence w r parsed

  -- The checks on a report for an invalid hostname.
  unfoldable pub validate_refusal : Report → Result Invalid Unit
  validate_refusal r =
      reject_if
        (not (stops_invalid r.status r.stop_reason)
          || not (is_empty r.hops)
          || not (r.redirects_followed == 0)
          || r.http_fallback_used)
        invalid_hostname

  unfoldable pub validate_report : Report → Result Invalid Unit
  validate_report r = do
    envelope_of r
    let normalized = normalize_input w.net r.input.hostname
    reject_if (not (input_eq normalized.0 r.input)) input
    elim normalized.1 [ none ↦ validate_refusal r | some _ ↦ validate_path r ]
