-- ===== src/Tests/Tls.antt =====
-- internal/probe and internal/tlsretrybatch: a target whose first attempt is reset and whose second
-- one succeeds.
use reachrun.Prelude.{
  true, false, Option, none, some, [], ◌∷◌, ◌≡◌, ◌↔◌, refl, Bytes, codes, bytes_eq, ok, pos, inl,
  ◌==◌, if◌then◌else◌, List,
}
use reachrun.Probe.{Outcome, Capability, Source, validate, platform_eq, source_eq, capability_eq}
use reachrun.Probe.Checked.{IsEnvelope, validate_iff}
use reachrun.TlsRetry.{
  Observation, TlsStatus, UnconfirmedReason, TargetResult, TargetStatus, expected_tls_input,
  failure_tcp_connection_reset, should_retry, should_retry_code, should_retry_evidence, input_eq,
}
use reachrun.TlsRetry.Attempts.{
  World, RunState, run_target, IsShared, attempt_loop, attempt, settle, backoff, delay_in_bounds,
  validate_observation, accept_source,
}
use reachrun.TlsRetry.Checks.{validate_target}
use reachrun.TlsRetry.Valid.Sequence.{Known}
use reachrun.TlsRetry.Valid.Running.{batch_of}
use reachrun.TlsRetry.Valid.Target.{run_target-valid}
use reachrun.NetTarget.Address.{ip4}
use reachrun.TlsRetry.Normalize.{normalize_request, initialize_targets, omitted_targets}
use reachrun.TlsRetry.Scheduled.{
  IsNormalized, normalize_request-IsNormalized, initialize_targets-IsSchedule, IsSchedule,
}
use reachrun.Tests.Web.{toy_net, addr_bytes}

abbrev ip : Bytes
ip = codes "192.0.2.1"

abbrev family_of : Bytes → Bytes
family_of _ = codes "ipv4"

abbrev reset : Observation
reset = record {
  schema = 1;
  probe = codes "tls";
  observed_at = record { is_zero = false; offset_is_zero = true };
  duration_ms = pos 12;
  platform = record { os = codes "linux"; arch = codes "amd64" };
  source = record { backend = codes "go"; capability = Capability.native; reason = [] };
  input = expected_tls_input family_of ip;
  outcome = Outcome.failed;
  evidence = none;
  failure = some (record { code = failure_tcp_connection_reset; detail = [] });
}

abbrev success : Observation
success = record reset {
  outcome = Outcome.succeeded;
  failure = none;
  evidence =
      some (record { status = TlsStatus.completed; unconfirmed_reason = UnconfirmedReason.absent });
}

abbrev world : World
world = record {
  platform = record { os = codes "linux"; arch = codes "amd64" };
  target_family = family_of;
  observation_valid = λ _. true;
  done_before = λ _. false;
  retry_delay = λ _. pos 150000000;
  wait_fails = λ _. false;
  done_waiting = λ _. false;
  observe = λ n. if n == 1 then reset else success;
  done_observed = λ _. false;
  others = λ _ s. s;
  done_appended = λ _. false;
}

abbrev start : TargetResult
start = record {
  dial_ip = ip;
  family = codes "ipv4";
  status = TargetStatus.not_started;
  attempts = [];
  attempts_nil = false;
}

abbrev idle : RunState
idle = record { failure = none; source = none }

world-IsShared : IsShared world
world-IsShared = record { source_kept = λ n s x e. e }

two_attempts : (run_target world start idle).0 ≡ record start {
  status = TargetStatus.completed;
  attempts =
      record { number = 1; retry_delay_ms = 0; observation = reset }
      ∷ record { number = 2; retry_delay_ms = 150; observation = success }
      ∷ [];
}
unfolding run_target attempt_loop attempt settle backoff delay_in_bounds validate_observation
    accept_source should_retry should_retry_code should_retry_evidence input_eq platform_eq bytes_eq
    source_eq capability_eq
two_attempts = refl

run_target-valid_example :
    (k : Option Source) × (validate_target
        (batch_of world true)
        (run_target world start idle).0
        ip
        none
      ≡ ok k)
    × Known (run_target world start idle).1.source k
run_target-valid_example =
    run_target-valid world world-IsShared true start idle none refl refl refl
      (λ _. rw two_attempts refl) (inl refl)

validate_iff_example : (validate reset ≡ ok tt) ↔ IsEnvelope reset
validate_iff_example = validate_iff reset

-- A request that has one address twice.
abbrev request : List Bytes
request = addr_bytes (ip4 8 8 8 8) ∷ addr_bytes (ip4 1 1 1 1) ∷ addr_bytes (ip4 8 8 8 8) ∷ []

normalize_request-IsNormalized_example :
    IsNormalized toy_net
      (normalize_request toy_net request).0.targets
      (normalize_request toy_net request).1
normalize_request-IsNormalized_example = normalize_request-IsNormalized toy_net request

initialize_targets-IsSchedule_example :
    IsSchedule family_of
      (normalize_request toy_net request).0.targets
      (omitted_targets (normalize_request toy_net request).0)
      (initialize_targets family_of (normalize_request toy_net request).0)
initialize_targets-IsSchedule_example =
    initialize_targets-IsSchedule family_of (normalize_request toy_net request).0
