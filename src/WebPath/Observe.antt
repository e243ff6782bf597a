-- ===== src/WebPath/Observe.antt =====
-- normalizeInput, Observe and finish of internal/webpath/observer.go.
use reachrun.Prelude.{
  ℕ, ◌+◌, ◌++◌, Bool, true, false, not, ◌&&◌, Option, none, some, List, [], Bytes, codes, ℤ, Result,
  ok, err,
}
use mathlib.Core.Option
use reachrun.Probe.{Timestamp, utc, clamp_duration}
use reachrun.NetTarget.Address.{NetLibrary}
use reachrun.NetTarget.Hostname.{WebHostnameError, normalize_web_hostname}
use reachrun.NetTarget.RequestTarget.{Url}
use reachrun.SystemResolver.Resolve.{ContextError, active}
use reachrun.WebPath.{
  Status, stopped, StopReason, invalid_input, all_candidates_failed, Input, Hop, Detail,
  bad_hostname, context_done, Report, max_redirects, candidate_limit_per_family, schema_version,
  operation,
}
use reachrun.WebPath.Candidates.{terminal_context}
use reachrun.WebPath.Hops.{World}
use reachrun.WebPath.Chain.{ChainResult, observe_chain}

abbrev pub input_of : Bytes → Input
input_of hostname = record {
  hostname = hostname;
  initial_url = codes "https://" ++ hostname ++ codes "/";
  method = codes "GET";
  redirect_limit = max_redirects;
  candidate_limit_per_family = candidate_limit_per_family;
}

-- The first URL, and the one of the fallback.
abbrev pub root_url : Bytes → Bytes → Url
root_url scheme hostname = record {
  scheme = scheme;
  opaque = [];
  has_user = false;
  host = hostname;
  path = codes "/";
  raw_path = [];
  force_query = false;
  raw_query = [];
  fragment = [];
}

abbrev pub initial_of : Bytes × Result WebHostnameError Unit → Input × Option Url
initial_of (hostname, ok _) = (input_of hostname, some (root_url (codes "https") hostname))
initial_of (hostname, err _) = (input_of hostname, none)

-- The input comes back beside an error too.
abbrev pub normalize_input : NetLibrary → Bytes → Input × Option Url
normalize_input lib hostname = initial_of (normalize_web_hostname lib hostname)

abbrev pub is_active : ContextError → Bool
is_active active = true
is_active _ = false

abbrev pub is_exhausted : Status → StopReason → Bool
is_exhausted stopped all_candidates_failed = true
is_exhausted _ _ = false

-- `o.now()` at the end, in any zone, and `finishedAt.Sub(startedAt).Milliseconds()`, which is negative
-- where the clock went back.
pub record Clock : Type 0 where
  pub finished_at : Timestamp
  pub elapsed_ms : ℤ

module _ (w : World) (clock : Clock) where
  abbrev pub finish : Input → Status → StopReason → Detail → ℕ → Bool → List Hop → Report
  finish input status reason detail redirects fallback_used hops = record {
    schema = schema_version;
    operation = operation;
    observed_at = utc clock.finished_at;
    duration_ms = clamp_duration clock.elapsed_ms;
    platform = w.platform;
    input = input;
    status = status;
    stop_reason = reason;
    detail = detail;
    redirects_followed = redirects;
    http_fallback_used = fallback_used;
    hops = hops;
  }

  -- A context that is done behind the chain has the last word.
  unfoldable pub end_chain : Input → Bool → List Hop → ChainResult → Report
  end_chain input fallback_used before chain =
      elim (terminal_context (w.contexts (chain.time + 1))) [
        | none ↦
            finish input chain.status chain.reason chain.detail chain.redirects_followed
              fallback_used (before ++ chain.hops)
        | some (status, reason) ↦
            finish input status reason context_done chain.redirects_followed fallback_used
              (before ++ chain.hops)
      ]

  -- Whether plain HTTP is tried: it reads the second context once more.
  unfoldable pub needs_fallback : ChainResult → Bool
  needs_fallback chain =
      is_exhausted chain.status chain.reason
      && not chain.had_response
      && is_active (w.contexts chain.time).attempt

  unfoldable pub after_chain : Input → Bytes → ChainResult → Option Report
  after_chain input hostname chain = elim (needs_fallback chain) [
    | false ↦ some (end_chain input false [] chain)
    | true ↦ Option.map (end_chain input true chain.hops) (
        observe_chain w (root_url (codes "http") hostname) chain.redirects_followed
          (chain.time + 1))
  ]

  -- `none` is that a chain ran out of fuel, or that it panics.
  abbrev pub after_first : Input → Option ChainResult → Option Report
  after_first input none = none
  after_first input (some chain) = after_chain input input.hostname chain

  unfoldable pub observe_url : Input → Option Url → Option Report
  observe_url input none = some (finish input stopped invalid_input bad_hostname 0 false [])
  observe_url input (some initial) = elim (terminal_context (w.contexts 0)) [
    | some (status, reason) ↦ some (finish input status reason context_done 0 false [])
    | none ↦ after_first input (observe_chain w initial 0 1)
  ]

  unfoldable pub observe : Bytes → Option Report
  observe hostname =
      let normalized = normalize_input w.net hostname in observe_url normalized.0 normalized.1
