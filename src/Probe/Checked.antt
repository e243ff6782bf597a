-- ===== src/Probe/Checked.antt =====
-- What Envelope.Validate accepts.
use reachrun.Prelude.{
  true, false, Option, none, some, ◌≡◌, ◌≢◌, ◌↔◌, arith, Bytes, bytes_eq_iff, is_empty, ok,
  is_negative,
}
use reachrun.Probe.{
  Capability, native, degraded, Outcome, Source, Failure, failure_cancelled, Envelope,
  schema_version, validate, validate_source, validate_outcome,
}

-- The reason goes with the capability.
abbrev pub SourceFits : Capability → Bytes → Type 0
SourceFits native reason = is_empty reason ≡ true
SourceFits degraded reason = is_empty reason ≡ false
SourceFits (Capability.unsupported _) reason = ⊥

-- Evidence and failure go with the outcome.
abbrev pub OutcomeFits {ℓ} : {E : Type ℓ} → Outcome → Option E → Option Failure → Type 0
OutcomeFits Outcome.succeeded (some _) none = Unit
OutcomeFits Outcome.failed none (some f) = (is_empty f.code ≡ false) × (f.code ≢ failure_cancelled)
OutcomeFits Outcome.cancelled none (some f) = f.code ≡ failure_cancelled
OutcomeFits _ _ _ = ⊥

pub record IsEnvelope {I E : Type 0} (e : Envelope I E) : Type 0 where
  pub schema : e.schema ≡ schema_version
  pub probe : is_empty e.probe ≡ false
  pub time : (e.observed_at.is_zero ≡ false) × (e.observed_at.offset_is_zero ≡ true)
  pub duration : is_negative e.duration_ms ≡ false
  pub platform : (is_empty e.platform.os ≡ false) × (is_empty e.platform.arch ≡ false)
  pub backend : is_empty e.source.backend ≡ false
  pub source : SourceFits e.source.capability e.source.reason
  pub outcome : OutcomeFits e.outcome e.evidence e.failure

source-fits : (s : Source) → (validate_source s ≡ ok tt) ↔ SourceFits s.capability s.reason
unfolding validate_source
source-fits s = ground arith

outcome-fits :
    {E : Type 0} (o : Outcome) (e : Option E) (f : Option Failure)
    → (validate_outcome o e f ≡ ok tt) ↔ OutcomeFits o e f
unfolding validate_outcome
outcome-fits o none none = ground arith
outcome-fits o none (some f) = ground (arith, bytes_eq_iff f.code failure_cancelled)
outcome-fits o (some e) none = ground arith
outcome-fits o (some e) (some f) = ground arith

module _ {I E : Type 0} where
  validate_sound : (e : Envelope I E) → validate e ≡ ok tt → IsEnvelope e
  unfolding validate
  validate_sound e h = record {
    schema = ground arith;
    probe = ground arith;
    time = ground arith;
    duration = ground arith;
    platform = ground arith;
    backend = ground arith;
    source = (source-fits e.source).0 (ground arith);
    outcome = (outcome-fits e.outcome e.evidence e.failure).0 (ground arith);
  }

  validate_complete : (e : Envelope I E) → IsEnvelope e → validate e ≡ ok tt
  unfolding validate
  validate_complete e h = ground (
    arith,
    (source-fits e.source).1 h.source,
    (outcome-fits e.outcome e.evidence e.failure).1 h.outcome,
  )

  -- `Envelope.Validate` accepts an envelope exactly when its version, probe, UTC time, duration,
  -- platform and backend are as required, its reason goes with the capability, and evidence and
  -- failure go with the outcome.
  pub validate_iff : (e : Envelope I E) → (validate e ≡ ok tt) ↔ IsEnvelope e
  validate_iff e = (validate_sound e, validate_complete e)
