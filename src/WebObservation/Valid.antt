-- ===== src/WebObservation/Valid.antt =====
-- What an observation that passes the checks holds.
use reachrun.Prelude.{true, ◌≡◌, arith, ok}
use reachrun.Probe.{validate}
use reachrun.Probe.Checked.{OutcomeFits, validate_iff}
use reachrun.NetTarget.Address.{NetLibrary}
use reachrun.NetTarget.RequestTarget.{UrlLibrary}
use reachrun.NetTarget.PublicIp.{normalize_public_ip}
use reachrun.WebObservation.{Observation, input_eq, family_eq}
use reachrun.WebObservation.Normalize.{normalized_input, family_of}
use reachrun.WebObservation.Checks.{EvidenceLibrary, validate_observation, validate_input_contract}

module _ (lib : NetLibrary) (urls : UrlLibrary) (times : EvidenceLibrary) (r : Observation) where
  observation-validate : validate_observation lib urls times r ≡ ok tt → validate r ≡ ok tt
  unfolding validate_observation
  observation-validate h = ground arith

  observation-input_contract :
      validate_observation lib urls times r ≡ ok tt
      → validate_input_contract lib urls r.input r.failure ≡ ok tt
  unfolding validate_observation
  observation-input_contract h = ground arith

  -- The outcome is one of the three.
  pub observation-OutcomeFits :
      validate_observation lib urls times r ≡ ok tt → OutcomeFits r.outcome r.evidence r.failure
  observation-OutcomeFits h = ((validate_iff r).0 (observation-validate h)).outcome

  -- The family is that of the address that was dialled.
  pub observation-family :
      validate_observation lib urls times r ≡ ok tt
      → family_eq (family_of (normalize_public_ip lib r.input.dial_ip).ip) r.input.family ≡ true
  unfolding validate_input_contract input_eq normalized_input
  observation-family h = let contract = observation-input_contract h in ground (arith, contract)
