-- ===== src/WebPath/Checks/Transitions.antt =====
-- The transitions between hops and the evidence for the end, of internal/webpath/validate.go.
use reachrun.Prelude.{
  ℕ, ◌+◌, Bool, true, false, not, ◌&&◌, ◌||◌, Option, none, some, List, [], ◌∷◌, ◌++◌, ◌==◌,
  if◌then◌else◌, Bytes, codes, bytes_eq, is_empty, Result, ok, err, ◌>>=◌, ◌>>◌, reject_if,
}
use reachrun.NetTarget.RequestTarget.{Url}
use reachrun.SystemResolver.Checks.{is_failed}
use reachrun.WebObservation.{HttpObservation}
use reachrun.WebPath
use reachrun.WebPath.{
  Status, completed, stopped, StopReason, final_response, resolution_failed, no_public_candidates,
  all_candidates_failed, redirect_location_unavailable, redirect_target_invalid,
  redirect_target_unsafe, redirect_loop, redirect_limit, path_timeout, invalid_probe_evidence,
  Report, max_redirects,
}
use reachrun.WebPath.Redirect.{is_redirect_status, redirect_target}
use reachrun.WebPath.Hops.{World}
use reachrun.WebPath.Checks.Hop.{
  succeeded, successful_attempt, exhausted_public_candidates, candidates_of,
}

pub data Invalid : Type 0 where
  schema operation no_time not_utc negative_duration no_platform redirects input : Invalid
  invalid_hostname valid_hostname terminal_pair completed_detail too_many_hops : Invalid
  first_hop bad_hop fallback_evidence fallback_url not_a_redirect bad_redirect : Invalid
  other_target redirect_count fallback_hop no_hops terminal_evidence : Invalid

-- A hop with the URL that was read from it.
abbrev pub Parsed : Type 0
Parsed = WebPath.Hop × Url

abbrev pub same_reason : StopReason → StopReason → Bool
same_reason redirect_target_invalid redirect_target_invalid = true
same_reason redirect_target_unsafe redirect_target_unsafe = true
same_reason _ _ = false

-- The response that redirects.
abbrev pub redirecting : Option HttpObservation → Result Invalid HttpObservation
redirecting none = err not_a_redirect
redirecting (some response) =
    if is_redirect_status response.status_code then ok response else err not_a_redirect

abbrev pub last_hop : Parsed → List Parsed → Parsed
last_hop hop [] = hop
last_hop hop (next ∷ rest) = last_hop next rest

abbrev pub is_interrupted : Status → StopReason → Bool
is_interrupted status invalid_probe_evidence = true
is_interrupted status path_timeout = true
is_interrupted Status.cancelled _ = true
is_interrupted _ _ = false

module _ (w : World) where
  abbrev pub target_of : Url → HttpObservation → Result Invalid Url
  target_of u response = elim (redirect_target w.net w.urls u response) [
    | ok next ↦ ok next
    | err _ ↦ err bad_redirect
  ]

  -- One redirect from a hop to the next.
  unfoldable pub check_transition : Parsed → WebPath.Hop → Result Invalid Unit
  check_transition previous hop = do
    response ← redirecting (successful_attempt previous.0)
    next ← target_of previous.1 response
    reject_if (not (bytes_eq (w.urls.text next) hop.url)) other_target

  unfoldable pub count_redirects : Parsed → List Parsed → Result Invalid ℕ
  count_redirects previous [] = ok 0
  count_redirects previous (hop ∷ rest) = do
    check_transition previous hop.0
    count ← count_redirects hop rest
    ok (count + 1)

  -- The loop over the hops, whose step to index 1 may be the fallback.
  unfoldable pub count_transitions : Bool → Bytes → List Parsed → Result Invalid ℕ
  count_transitions fallback hostname [] = ok 0
  count_transitions false hostname (hop ∷ rest) = count_redirects hop rest
  count_transitions true hostname (hop ∷ []) = ok 0
  count_transitions true hostname (hop ∷ next ∷ rest) = do
    reject_if
        (not (bytes_eq next.0.url (codes "http://" ++ hostname ++ codes "/"))
          || not (exhausted_public_candidates w hop.0))
        fallback_url
    count_redirects next rest

  abbrev pub repeats : Bytes → List Parsed → Bool
  repeats text [] = false
  repeats text (hop ∷ rest) = bytes_eq (w.urls.text hop.1) text || repeats text rest

  abbrev pub usable_location : HttpObservation → Bool
  usable_location response = not response.location_omitted && not (is_empty response.location)

  -- The two reasons for a target that was refused.
  abbrev pub check_refused : StopReason → Parsed → Result Invalid Unit
  check_refused reason last = do
    response ← redirecting (successful_attempt last.0)
    elim (redirect_target w.net w.urls last.1 response) [
      | ok _ ↦ err terminal_evidence
      | err why ↦ reject_if (not (same_reason why reason)) terminal_evidence
    ]

  abbrev pub check_final : Option HttpObservation → Result Invalid Unit
  check_final none = err terminal_evidence
  check_final (some response) =
      reject_if (is_redirect_status response.status_code) terminal_evidence

  -- The switch on the reason.
  unfoldable pub check_reason : StopReason → ℕ → List Parsed → Parsed → Result Invalid Unit
  check_reason reason followed hops last = elim reason [
    | final_response ↦ check_final (successful_attempt last.0)
    | resolution_failed ↦
        reject_if (not (is_failed last.0.resolution.outcome) || not (is_empty last.0.attempts))
          terminal_evidence
    | no_public_candidates ↦
        reject_if
          (not (succeeded last.0.resolution.outcome)
            || not (is_empty (candidates_of w last.0.resolution))
            || not (is_empty last.0.attempts))
          terminal_evidence
    | all_candidates_failed ↦
        reject_if (not (exhausted_public_candidates w last.0)) terminal_evidence
    | redirect_location_unavailable ↦ do
      response ← redirecting (successful_attempt last.0)
      reject_if (usable_location response) terminal_evidence
    | redirect_target_invalid ↦ check_refused redirect_target_invalid last
    | redirect_target_unsafe ↦ check_refused redirect_target_unsafe last
    | redirect_loop ↦ do
      response ← redirecting (successful_attempt last.0)
      next ← target_of last.1 response
      reject_if (not (repeats (w.urls.text next) hops)) terminal_evidence
    | redirect_limit ↦ do
      reject_if (not (followed == max_redirects)) terminal_evidence
      response ← redirecting (successful_attempt last.0)
      ok tt
    | _ ↦ ok tt
  ]

  abbrev pub check_last : Report → List Parsed → Result Invalid Unit
  check_last report [] = err no_hops
  check_last report (hop ∷ rest) =
      check_reason report.stop_reason report.redirects_followed (hop ∷ rest) (last_hop hop rest)

  unfoldable pub validate_terminal_evidence : Report → List Parsed → Result Invalid Unit
  validate_terminal_evidence report hops = elim (is_interrupted report.status report.stop_reason) [
    | true ↦ ok tt
    | false ↦ check_last report hops
  ]
