-- ===== src/SystemResolver/Resolve.antt =====
-- Resolve, normalizeAddresses and classifyFailure of internal/platform/systemresolver/resolver.go.
use reachrun.Prelude.{
  Bool, true, false, ◌&&◌, ◌||◌, Option, none, some, List, [], ◌∷◌, if◌then◌else◌, Bytes, bytes_eq,
  is_empty, ℤ,
}
use mathlib.Core.Option
use reachrun.Probe.{
  Outcome, Source, Platform, Timestamp, Failure, failure_cancelled, schema_version, utc,
  clamp_duration,
}
use reachrun.NetTarget.Address.{NetLibrary, Addr, unmap}
use reachrun.SystemResolver.{
  Address, Evidence, Resolution, kind_system_resolution, failure_invalid_input,
  failure_name_unresolved, failure_timeout, failure_resolution_failure,
}
use reachrun.SystemResolver.Checks.{check_hostname, family_of, contains_addr}

-- What `errors.Is` and `errors.As` say of the error of a lookup, and its text.
pub record LookupError : Type 0 where
  pub is_canceled : Bool
  pub is_deadline : Bool
  pub is_dns : Bool
  pub is_not_found : Bool
  pub is_dns_timeout : Bool
  pub is_net_timeout : Bool
  pub text : Bytes

-- `ctx.Err()`.
pub data ContextError : Type 0 where
  active canceled deadline_exceeded : ContextError

pub data Lookup : Type 0 where
  found : List (Option Addr) → Lookup
  failed : LookupError → Lookup

-- What one call meets: the lookup, the context behind it, and the clock: `finished_at` is its
-- last reading, in any zone, and `elapsed_ms` is `finishedAt.Sub(startedAt).Milliseconds()`, which is
-- negative where the clock went back.
pub record World : Type 0 where
  pub source : Source
  pub platform : Platform
  pub lookup : Bytes → Lookup
  pub context_behind : ContextError
  pub finished_at : Timestamp
  pub elapsed_ms : ℤ
  pub context_text : Bytes
  pub error_text : Bytes

-- The outcome and code of a failure.
abbrev is_canceled_context : ContextError → Bool
is_canceled_context canceled = true
is_canceled_context _ = false

abbrev is_deadline_context : ContextError → Bool
is_deadline_context deadline_exceeded = true
is_deadline_context _ = false

unfoldable pub classify_failure : ContextError → LookupError → Outcome × Bytes
classify_failure ctx e =
    if is_canceled_context ctx || e.is_canceled
    then (Outcome.cancelled, failure_cancelled)
    else if is_deadline_context ctx || e.is_deadline
    then (Outcome.failed, failure_timeout)
    else if e.is_dns && e.is_not_found
    then (Outcome.failed, failure_name_unresolved)
    else if e.is_dns && e.is_dns_timeout
    then (Outcome.failed, failure_timeout)
    else if e.is_net_timeout
    then (Outcome.failed, failure_timeout)
    else (Outcome.failed, failure_resolution_failure)

-- The error of a context as an error value.
abbrev pub context_error : ContextError → Bytes → LookupError
context_error ctx text = record {
  is_canceled = is_canceled_context ctx;
  is_deadline = is_deadline_context ctx;
  is_dns = false;
  is_not_found = false;
  is_dns_timeout = false;
  is_net_timeout = is_deadline_context ctx;
  text = text;
}

module _ (lib : NetLibrary) where
  abbrev address_of : Addr → Address
  address_of a = record { ip = lib.addr_text a; family = family_of a }

  -- The loop of `normalizeAddresses`; an address that is `none` is the zero value, which is not valid,
  -- and so is the result.
  unfoldable pub normalize_addresses : List Addr → List (Option Addr) → Option (List Address)
  normalize_addresses seen [] = some []
  normalize_addresses seen (none ∷ as') = none
  normalize_addresses seen (some a ∷ as') = elim (contains_addr (unmap a) seen) [
    | true ↦ normalize_addresses seen as'
    | false ↦ Option.map (λ l. address_of (unmap a) ∷ l) (normalize_addresses (unmap a ∷ seen) as')
  ]

  module _ (w : World) where
    abbrev pub result_of : Bytes → Outcome → Option Evidence → Option Failure → Resolution
    result_of hostname outcome evidence failure = record {
      schema = schema_version;
      probe = kind_system_resolution;
      observed_at = utc w.finished_at;
      duration_ms = clamp_duration w.elapsed_ms;
      platform = w.platform;
      source = w.source;
      input = record { hostname = hostname };
      outcome = outcome;
      evidence = evidence;
      failure = failure;
    }

    abbrev failure_result : Bytes → Bytes → Resolution
    failure_result hostname code =
        result_of hostname
          (if bytes_eq code failure_cancelled then Outcome.cancelled else Outcome.failed) none
          (some (record { code = code; detail = w.error_text }))

    abbrev pub classified : Bytes → LookupError → Resolution
    classified hostname e =
        let (outcome, code) = classify_failure w.context_behind e in
        result_of hostname outcome none (some (record { code = code; detail = e.text }))

    unfoldable pub with_addresses : Bytes → List (Option Addr) → Resolution
    with_addresses hostname addresses = elim (normalize_addresses [] addresses) [
      | none ↦ failure_result hostname failure_resolution_failure
      | some normalized ↦
          if is_empty normalized
          then failure_result hostname failure_resolution_failure
          else result_of hostname Outcome.succeeded (some (record { addresses = normalized })) none
    ]

    -- Behind a lookup that succeeded, the context may be done.
    abbrev pub in_context : Bytes → List (Option Addr) → ContextError → Resolution
    in_context hostname addresses active = with_addresses hostname addresses
    in_context hostname addresses ctx = classified hostname (context_error ctx w.context_text)

    unfoldable pub looked_up : Bytes → Lookup → Resolution
    looked_up hostname (failed e) = classified hostname e
    looked_up hostname (found addresses) = in_context hostname addresses w.context_behind

    unfoldable pub resolve : Bytes → Resolution
    resolve value =
        let hostname = lib.trim_space value in
        elim (check_hostname lib hostname) [
          | some _ ↦ failure_result hostname failure_invalid_input
          | none ↦ looked_up hostname (w.lookup hostname)
        ]
