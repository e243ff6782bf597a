-- ===== src/SystemResolver/Accepted.antt =====
-- What a resolution that passes the checks holds.
use reachrun.Prelude.{some, [], ◌≡◌, arith, ok, Option-cases, inl, inr}
use reachrun.Probe.{Outcome, validate}
use reachrun.Probe.Checked.{OutcomeFits, validate_iff}
use reachrun.NetTarget.Address.{NetLibrary}
use reachrun.SystemResolver.{Resolution, Evidence}
use reachrun.SystemResolver.Checks.{
  check_hostname, check_outcome, validate_addresses, validate_evidence, validate_hostname,
  validate_resolution,
}

module _ (lib : NetLibrary) (r : Resolution) where
  resolution-validate : validate_resolution lib r ≡ ok tt → validate r ≡ ok tt
  unfolding validate_resolution
  resolution-validate h = ground arith

  resolution-hostname : validate_resolution lib r ≡ ok tt → validate_hostname lib r ≡ ok tt
  unfolding validate_resolution
  resolution-hostname h = ground arith

  -- The outcome is one of the three.
  pub resolution-OutcomeFits :
      validate_resolution lib r ≡ ok tt → OutcomeFits r.outcome r.evidence r.failure
  resolution-OutcomeFits h = ((validate_iff r).0 (resolution-validate h)).outcome

  evidence-check_outcome :
      validate_evidence lib r ≡ ok tt → check_outcome lib r.outcome r.evidence ≡ ok tt
  unfolding validate_evidence
  evidence-check_outcome h = ground arith

  succeeded-check_outcome :
      r.outcome ≡ Outcome.succeeded
      → validate_hostname lib r ≡ ok tt
      → check_outcome lib r.outcome r.evidence ≡ ok tt
  unfolding validate_hostname
  succeeded-check_outcome e h =
      elim (Option-cases (check_hostname lib (lib.trim_space r.input.hostname))) [
        | inl good ↦ evidence-check_outcome (rw (validate_hostname, good) at h)
        | inr (why, bad) ↦ cc (rw (validate_hostname, bad, e) at h)
      ]

  -- The addresses of a success are canonical and differ.
  pub resolution-validate_addresses :
      validate_resolution lib r ≡ ok tt
      → r.outcome ≡ Outcome.succeeded
      → (e : Evidence) → r.evidence ≡ some e
      → validate_addresses lib [] e.addresses ≡ ok tt
  unfolding check_outcome
  resolution-validate_addresses h s e present =
      let checked = rw (s, present) at (succeeded-check_outcome s (resolution-hostname h)) in
      ground (arith, checked)
