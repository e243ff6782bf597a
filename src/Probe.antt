-- ===== src/Probe.antt =====
-- internal/probe/envelope.go: the envelope of one probe attempt and its checks. The string types
-- with constants are data types, whose last constructor holds any other value. Of a `time.Time` the
-- checks read whether it is zero and whether its zone has the offset 0.
pub mod Checked
use reachrun.Prelude.{
  ℕ, Bool, true, false, not, ◌&&◌, ◌||◌, Option, none, some, ◌==◌, Bytes, codes, bytes_eq, is_empty,
  bytes_eq_refl, bytes_eq_iff, ◌≡◌, refl, arith, Result, ok, err, ◌>>=◌, ◌>>◌, reject_if, ℤ, pos,
  negsuc, if◌then◌else◌, is_negative,
}

abbrev pub schema_version : ℕ
schema_version = 1

pub data Capability : Type 0 where
  native degraded : Capability
  unsupported : Bytes → Capability

pub data Outcome : Type 0 where
  succeeded failed cancelled : Outcome
  unsupported : Bytes → Outcome

pub record Platform : Type 0 where
  pub os : Bytes
  pub arch : Bytes

pub record Source : Type 0 where
  pub backend : Bytes
  pub capability : Capability
  pub reason : Bytes

pub record Failure : Type 0 where
  pub code : Bytes
  pub detail : Bytes

abbrev pub failure_cancelled : Bytes
failure_cancelled = codes "cancelled"

pub record Timestamp : Type 0 where
  pub is_zero : Bool
  pub offset_is_zero : Bool

-- `Time.UTC()`: the same instant, in the zone of offset 0.
unfoldable pub utc : Timestamp → Timestamp
utc t = record { is_zero = t.is_zero; offset_is_zero = true }

-- `if duration < 0 { duration = 0 }`.
unfoldable pub clamp_duration : ℤ → ℤ
clamp_duration duration = if is_negative duration then pos 0 else duration

pub record Envelope (I E : Type 0) : Type 0 where
  pub schema : ℕ
  pub probe : Bytes
  pub observed_at : Timestamp
  pub duration_ms : ℤ
  pub platform : Platform
  pub source : Source
  pub input : I
  pub outcome : Outcome
  pub evidence : Option E
  pub failure : Option Failure

pub data EnvelopeError : Type 0 where
  wrong_schema no_probe no_time not_utc negative_duration no_platform no_backend : EnvelopeError
  unsupported_capability native_reason no_degraded_reason : EnvelopeError
  missing_evidence unexpected_evidence missing_failure unexpected_failure wrong_code : EnvelopeError
  unsupported_outcome : EnvelopeError

-- `Capability.valid`, with the two checks on the reason.
unfoldable pub validate_source : Source → Result EnvelopeError Unit
validate_source s = elim s.capability [
  | native ↦ reject_if (not (is_empty s.reason)) native_reason
  | degraded ↦ reject_if (is_empty s.reason) no_degraded_reason
  | unsupported _ ↦ err unsupported_capability
]

abbrev pub has_evidence : {E : Type 0} → Option E → Bool
has_evidence none = false
has_evidence (some _) = true

-- The switch on the outcome.
unfoldable pub validate_outcome :
    {E : Type 0} → Outcome → Option E → Option Failure → Result EnvelopeError Unit
validate_outcome succeeded evidence failure = do
  reject_if (not (has_evidence evidence)) missing_evidence
  elim failure [ none ↦ ok tt | some _ ↦ err unexpected_failure ]
validate_outcome failed evidence failure = do
  reject_if (has_evidence evidence) unexpected_evidence
  elim failure [
    | none ↦ err missing_failure
    | some f ↦ reject_if (is_empty f.code || bytes_eq f.code failure_cancelled) wrong_code
  ]
validate_outcome cancelled evidence failure = do
  reject_if (has_evidence evidence) unexpected_evidence
  elim failure [
    | none ↦ err missing_failure
    | some f ↦ reject_if (not (bytes_eq f.code failure_cancelled)) wrong_code
  ]
validate_outcome (Outcome.unsupported _) evidence failure = err unsupported_outcome

module _ {I E : Type 0} where
  -- `Envelope.Validate`.
  unfoldable pub validate : Envelope I E → Result EnvelopeError Unit
  validate e = do
    reject_if (not (e.schema == schema_version)) wrong_schema
    reject_if (is_empty e.probe) no_probe
    reject_if e.observed_at.is_zero no_time
    reject_if (not e.observed_at.offset_is_zero) not_utc
    reject_if (is_negative e.duration_ms) negative_duration
    reject_if (is_empty e.platform.os || is_empty e.platform.arch) no_platform
    reject_if (is_empty e.source.backend) no_backend
    validate_source e.source
    validate_outcome e.outcome e.evidence e.failure

-- `==` of platforms and of sources.
unfoldable pub platform_eq : Platform → Platform → Bool
platform_eq p q = bytes_eq p.os q.os && bytes_eq p.arch q.arch

unfoldable pub capability_eq : Capability → Capability → Bool
capability_eq native native = true
capability_eq degraded degraded = true
capability_eq (Capability.unsupported s) (Capability.unsupported t) = bytes_eq s t
capability_eq _ _ = false

unfoldable pub source_eq : Source → Source → Bool
source_eq s t =
    bytes_eq s.backend t.backend
    && capability_eq s.capability t.capability
    && bytes_eq s.reason t.reason

capability_eq_refl : (c : Capability) → capability_eq c c ≡ true
unfolding capability_eq
capability_eq_refl native = refl
capability_eq_refl degraded = refl
capability_eq_refl (Capability.unsupported s) = bytes_eq_refl s

pub source_eq_refl : (s : Source) → source_eq s s ≡ true
unfolding source_eq
source_eq_refl s =
    ground (arith, bytes_eq_refl s.backend, bytes_eq_refl s.reason, capability_eq_refl s.capability)

capability-eq : (c d : Capability) → capability_eq c d ≡ true → c ≡ d
unfolding capability_eq
capability-eq (Capability.unsupported s) (Capability.unsupported t) h =
    ground (arith, bytes_eq_iff s t)
capability-eq _ _ h = ground arith

pub source-eq : (s t : Source) → source_eq s t ≡ true → s ≡ t
unfolding source_eq
source-eq s t h = ground (
  arith,
  bytes_eq_iff s.backend t.backend,
  bytes_eq_iff s.reason t.reason,
  capability-eq s.capability t.capability,
)

-- A clamped duration is not negative, whatever the clock gave.
pub clamp_duration-is_negative : (duration : ℤ) → is_negative (clamp_duration duration) ≡ false
unfolding clamp_duration
clamp_duration-is_negative (pos n) = refl
clamp_duration-is_negative (negsuc n) = refl
