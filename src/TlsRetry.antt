-- ===== src/TlsRetry.antt =====
-- internal/tlsretrybatch: the retry sequence of one target (observer.go, retry.go), the request
-- (normalize.go) and the checks (validate.go). The TLS probe, the clock and the other workers are parameters.
pub mod Attempts
pub mod Checks
pub mod Valid
pub mod Normalize
pub mod Scheduled
use reachrun.Prelude.{
  ℕ, zero, suc, ◌+◌, ◌*◌, ◌/◌, Bool, true, false, not, ◌&&◌, ◌||◌, Option, none, some, List, [],
  ◌∷◌, ◌++◌, ltb, ◌==◌, if◌then◌else◌, Bytes, codes, bytes_eq, length, is_empty, ℤ, pos, negsuc,
}
use reachrun.Probe.{Outcome, Platform, Source, Failure, Envelope}

abbrev pub attempt_limit : ℕ
attempt_limit = 3

-- Durations are nanoseconds.
abbrev pub millisecond : ℕ
millisecond = 1000000

abbrev pub backoff_min : ℕ
backoff_min = 100 * millisecond

abbrev pub backoff_max : ℕ
backoff_max = 300 * millisecond

abbrev pub failure_tcp_timeout : Bytes
failure_tcp_timeout = codes "tcp_timeout"

abbrev pub failure_tcp_connection_reset : Bytes
failure_tcp_connection_reset = codes "tcp_connection_reset"

pub data TlsStatus : Type 0 where
  completed unconfirmed : TlsStatus
  unsupported : Bytes → TlsStatus

pub data UnconfirmedReason : Type 0 where
  absent handshake_timeout connection_closed connection_reset : UnconfirmedReason
  handshake_failure exchange_failure : UnconfirmedReason
  unsupported : Bytes → UnconfirmedReason

-- A TLS observation's input, and the fields of its evidence that this package reads.
pub record TlsInput : Type 0 where
  pub dial_ip : Bytes
  pub family : Bytes
  pub port : ℕ
  pub sni_mode : Bytes
  pub identity_verification : Bytes

pub record TlsEvidence : Type 0 where
  pub status : TlsStatus
  pub unconfirmed_reason : UnconfirmedReason

abbrev pub Observation : Type 0
Observation = Envelope TlsInput TlsEvidence

pub data TargetStatus : Type 0 where
  completed interrupted not_started : TargetStatus
  unsupported : Bytes → TargetStatus

pub record Attempt : Type 0 where
  pub number : ℕ
  pub retry_delay_ms : ℕ
  pub observation : Observation

-- `attempts_nil` is whether the slice is nil, which the checks tell from an empty one.
pub record TargetResult : Type 0 where
  pub dial_ip : Bytes
  pub family : Bytes
  pub status : TargetStatus
  pub attempts : List Attempt
  pub attempts_nil : Bool

unfoldable pub should_retry_code : Option Failure → Bool
should_retry_code none = false
should_retry_code (some f) =
    bytes_eq f.code failure_tcp_timeout || bytes_eq f.code failure_tcp_connection_reset

abbrev is_transient : UnconfirmedReason → Bool
is_transient handshake_timeout = true
is_transient connection_reset = true
is_transient _ = false

unfoldable pub should_retry_evidence : Option TlsEvidence → Bool
should_retry_evidence none = false
should_retry_evidence (some e) = elim e.status [
  | TlsStatus.unconfirmed ↦ is_transient e.unconfirmed_reason
  | _ ↦ false
]

unfoldable pub should_retry : Observation → Bool
should_retry o = elim o.outcome [
  | Outcome.failed ↦ should_retry_code o.failure
  | Outcome.succeeded ↦ should_retry_evidence o.evidence
  | _ ↦ false
]

unfoldable pub input_eq : TlsInput → TlsInput → Bool
input_eq a b =
    bytes_eq a.dial_ip b.dial_ip
    && bytes_eq a.family b.family
    && (a.port == b.port)
    && bytes_eq a.sni_mode b.sni_mode
    && bytes_eq a.identity_verification b.identity_verification

-- `expectedTLSInput`; the family of an address is `netip`'s.
abbrev pub expected_tls_input : (Bytes → Bytes) → Bytes → TlsInput
expected_tls_input target_family target = record {
  dial_ip = target;
  family = target_family target;
  port = 443;
  sni_mode = codes "omitted_no_hostname";
  identity_verification = codes "not_performed_no_hostname";
}

abbrev pub interrupt_target : TargetResult → TargetResult
interrupt_target t = record t { status = if is_empty t.attempts then not_started else interrupted }

abbrev pub is_cancelled : Outcome → Bool
is_cancelled Outcome.cancelled = true
is_cancelled _ = false

abbrev pub is_succeeded : Outcome → Bool
is_succeeded Outcome.succeeded = true
is_succeeded _ = false
