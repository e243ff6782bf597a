-- ===== src/WebPath.antt =====
-- internal/webpath/types.go: the report of one website path. Its children follow the other files of the
-- package: redirect.go, observer.go, validate.go.
pub mod Redirect
pub mod Candidates
pub mod Hops
pub mod Chain
pub mod Observe
pub mod Checks
pub mod Ends
pub mod Follow
pub mod WebUrl
pub mod Redirected
pub mod Dialled
pub mod HopValid
pub mod HopAccepted
pub mod Limits
pub mod Explained
pub mod ChainAccepted
pub mod ReportChecked
pub mod ReportAccepted
use reachrun.Prelude.{ℕ, Bool, true, false, List, Bytes, codes, ℤ, is_empty}
use reachrun.Probe.{Platform, Timestamp}
use reachrun.SystemResolver.{Resolution}
use reachrun.SystemResolver.Resolve.{ContextError}
use reachrun.WebObservation.{Observation}

pub data Status : Type 0 where
  completed stopped cancelled : Status
  unsupported : Bytes → Status

pub data StopReason : Type 0 where
  final_response invalid_input resolution_failed no_public_candidates : StopReason
  all_candidates_failed redirect_location_unavailable redirect_target_invalid : StopReason
  redirect_target_unsafe redirect_loop redirect_limit path_timeout : StopReason
  cancelled invalid_probe_evidence : StopReason
  unsupported : Bytes → StopReason

abbrev pub max_redirects : ℕ
max_redirects = 3

abbrev pub candidate_limit_per_family : ℕ
candidate_limit_per_family = 2

abbrev pub schema_version : ℕ
schema_version = 1

abbrev pub operation : Bytes
operation = codes "web_path"

pub record Input : Type 0 where
  pub hostname : Bytes
  pub initial_url : Bytes
  pub method : Bytes
  pub redirect_limit : ℕ
  pub candidate_limit_per_family : ℕ

-- `attempts_nil` is whether the slice is nil, which the checks tell from an empty one.
pub record Hop : Type 0 where
  pub url : Bytes
  pub resolution : Resolution
  pub attempts : List Observation
  pub attempts_nil : Bool

-- What the text of a stop says; `plain` is a text that is empty or was copied from a failure.
pub data Detail : Type 0 where
  plain : Bytes → Detail
  bad_hostname context_done invalid_resolution other_resolution no_candidates : Detail
  invalid_observation other_observation all_failed bad_redirect loop limit : Detail

abbrev pub is_silent : Detail → Bool
is_silent (plain text) = is_empty text
is_silent _ = false

-- `Result` of the package. A `hops` that is nil is the empty list.
pub record Report : Type 0 where
  pub schema : ℕ
  pub operation : Bytes
  pub observed_at : Timestamp
  pub duration_ms : ℤ
  pub platform : Platform
  pub input : Input
  pub status : Status
  pub stop_reason : StopReason
  pub detail : Detail
  pub redirects_followed : ℕ
  pub http_fallback_used : Bool
  pub hops : List Hop
