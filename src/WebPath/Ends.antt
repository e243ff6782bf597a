-- ===== src/WebPath/Ends.antt =====
-- What stands behind the end of a hop.
use reachrun.Prelude.{
  ℕ, suc, ◌+◌, true, false, Option, none, some, List, [], ◌∷◌, Bytes, is_empty, length, IfSome, ◌≡◌,
  ◌≢◌, refl, ap, subst, inl, inr, Bool-cases, Option-cases,
}
use reachrun.Probe.{Outcome, Failure}
use reachrun.Probe.Checked.{OutcomeFits}
use reachrun.WebObservation.Valid.{observation-OutcomeFits}
use reachrun.NetTarget.RequestTarget.{Url}
use reachrun.SystemResolver
use reachrun.SystemResolver.{Resolution}
use reachrun.SystemResolver.Accepted.{resolution-OutcomeFits}
use reachrun.SystemResolver.Checks.{is_failed}
use reachrun.WebObservation.{Evidence, Observation, HttpObservation}
use reachrun.SystemResolver.Resolve.{ContextError, active, canceled, deadline_exceeded}
use reachrun.WebPath.{
  Status, stopped, StopReason, resolution_failed, no_public_candidates, all_candidates_failed,
  path_timeout, invalid_probe_evidence, Hop, Detail,
}
use reachrun.WebPath.Candidates.{select_from, Contexts, terminal_of, terminal_context}
use reachrun.WebPath.Hops.{
  World, ok_of_is_ok, HopEnd, answered, ended, panicked, observe_evidence, observe_failure,
  HopResult, is_valid_observation, is_requested, is_valid_resolution, is_resolution_of,
  end_of_outcome, end_of_attempt, observe_candidates, observe_addresses, observe_outcome,
  observe_resolution, observe_hop, host_of, request_for, hop_of,
}
use reachrun.WebPath.Checks.Hop.{
  succeeded, is_cancelled, response_if_succeeded, last_attempt, all_failed, candidates_of,
}

-- A stop that needs no evidence.
pub data Interrupted : Status → StopReason → Type 0 where
  by_cancel : Interrupted Status.cancelled StopReason.cancelled
  by_timeout : Interrupted stopped path_timeout
  by_bad_evidence : Interrupted stopped invalid_probe_evidence

terminal_of-Interrupted :
    (parent attempt : ContextError)
    → IfSome (λ p. Interrupted p.0 p.1) Unit (terminal_of parent attempt)
terminal_of-Interrupted canceled attempt = by_cancel
terminal_of-Interrupted deadline_exceeded attempt = by_timeout
terminal_of-Interrupted active canceled = by_cancel
terminal_of-Interrupted active deadline_exceeded = by_timeout
terminal_of-Interrupted active active = tt

-- The end of a loop over `n` candidates, with the attempts that it made.
pub data LoopEnd (attempts : List Observation) (n : ℕ) : HopEnd → Type 0 where
  interrupted :
      {status : Status} {reason : StopReason} {detail : Detail}
      → Interrupted status reason
      → LoopEnd attempts n (ended status reason detail)
  exhausted :
      {detail : Detail}
      → all_failed attempts ≡ true
      → length attempts ≡ n
      → LoopEnd attempts n (ended stopped all_candidates_failed detail)
  responded :
      {response : HttpObservation}
      → response_if_succeeded (last_attempt attempts) ≡ some response
      → LoopEnd attempts n (answered response)

pub terminal_context-Interrupted :
    (c : Contexts) → IfSome (λ p. Interrupted p.0 p.1) Unit (terminal_context c)
terminal_context-Interrupted c = terminal_of-Interrupted c.parent c.attempt

-- What follows from the end of one attempt.
abbrev pub EndOfAttempt : Observation → Option HopEnd → Type 0
EndOfAttempt r none = (succeeded r.outcome ≡ false) × (is_cancelled r.outcome ≡ false)
EndOfAttempt r (some result) = (n : ℕ) → LoopEnd (r ∷ []) n result

success_has_evidence :
    (E : Type 0) (f : Option Failure) → OutcomeFits {E = E} Outcome.succeeded none f → ⊥
success_has_evidence E none fits = elim fits [ ]
success_has_evidence E (some _) fits = elim fits [ ]

failure_has_detail : (E : Type 0) (x : Option E) → OutcomeFits Outcome.failed x none → ⊥
failure_has_detail E none fits = elim fits [ ]
failure_has_detail E (some _) fits = elim fits [ ]

-- A success has evidence, so that no nil pointer is read.
end_of_outcome-fits :
    (r : Observation) (outcome : Outcome) (evidence : Option Evidence)
    → r.outcome ≡ outcome
    → r.evidence ≡ evidence
    → OutcomeFits outcome evidence r.failure
    → EndOfAttempt r (end_of_outcome outcome evidence)
end_of_outcome-fits r Outcome.cancelled evidence e v fits = λ n. interrupted by_cancel
end_of_outcome-fits r Outcome.succeeded (some x) e v fits = λ n. responded (rw (e, v) refl)
end_of_outcome-fits r Outcome.succeeded none e v fits =
    elim (success_has_evidence Evidence r.failure fits) [ ]
end_of_outcome-fits r Outcome.failed evidence e v fits = (rw e refl, rw e refl)
end_of_outcome-fits r (Outcome.unsupported _) evidence e v fits = (rw e refl, rw e refl)

module _ (w : World) where
  pub is_valid-OutcomeFits :
      (r : Observation)
      → is_valid_observation w r ≡ true
      → OutcomeFits r.outcome r.evidence r.failure
  is_valid-OutcomeFits r valid =
      observation-OutcomeFits w.net w.urls w.evidence r (ok_of_is_ok valid)

  end_of_attempt-fits :
      (time : ℕ) (r : Observation)
      → is_valid_observation w r ≡ true
      → EndOfAttempt r (end_of_attempt w time r)
  unfolding end_of_attempt
  end_of_attempt-fits time r valid = elim (Option-cases (terminal_context (w.contexts time))) [
    | inl running ↦
        rw (end_of_attempt, running)
          (end_of_outcome-fits r r.outcome r.evidence refl refl (is_valid-OutcomeFits r valid))
    | inr (stop, e) ↦
        rw (end_of_attempt, e)
          (λ n. interrupted (rw e at (terminal_context-Interrupted (w.contexts time))))
  ]

  -- How the loop over the candidates runs: which attempts it makes, and what it ends with.
  pub data Run (u : Url) : List Bytes → List Observation → HopEnd → Type 0 where
    done : {detail : Detail} → Run u [] [] (ended stopped all_candidates_failed detail)
    broken :
        {candidate : Bytes} {rest : List Bytes} {detail : Detail}
        → Run u (candidate ∷ rest) [] (ended stopped invalid_probe_evidence detail)
    last :
        {candidate : Bytes} {rest : List Bytes} {result : HopEnd} (r : Observation)
        → is_valid_observation w r ≡ true
        → is_requested w u candidate r ≡ true
        → EndOfAttempt r (some result)
        → Run u (candidate ∷ rest) (r ∷ []) result
    next :
        {candidate : Bytes} {rest : List Bytes} {attempts : List Observation} {result : HopEnd}
        (r : Observation)
        → is_valid_observation w r ≡ true
        → is_requested w u candidate r ≡ true
        → EndOfAttempt r none
        → Run u rest attempts result
        → Run u (candidate ∷ rest) (r ∷ attempts) result

  pub observe_candidates-Run :
      (u : Url) (time : ℕ) (candidates : List Bytes)
      → Run u candidates
          (observe_candidates w u time candidates).attempts
          (observe_candidates w u time candidates).result
  unfolding observe_candidates
  observe_candidates-Run u time [] = done
  observe_candidates-Run u time (candidate ∷ rest) =
      let r = w.web time (request_for w u candidate) in
      elim (Bool-cases (is_valid_observation w r)) [
        | inr invalid ↦ rw (observe_candidates, invalid) broken
        | inl valid ↦ elim (Bool-cases (is_requested w u candidate r)) [
          | inr other ↦ rw (observe_candidates, valid, other) broken
          | inl same ↦ elim (Option-cases (end_of_attempt w (time + 1) r)) [
            | inr (result, e) ↦
                rw (observe_candidates, valid, same, e)
                  (last r valid same (rw e at (end_of_attempt-fits (time + 1) r valid)))
            | inl e ↦
                rw (observe_candidates, valid, same, e)
                  (next r valid same (rw e at (end_of_attempt-fits (time + 1) r valid))
                    (observe_candidates-Run u (time + 2) rest))
          ]
        ]
      ]

  is_failed-rest :
      (outcome : Outcome) (e : Option Evidence) (f : Option Failure)
      → OutcomeFits outcome e f
      → succeeded outcome ≡ false
      → is_cancelled outcome ≡ false
      → is_failed outcome ≡ true
  is_failed-rest Outcome.succeeded e f fits a b = cc a
  is_failed-rest Outcome.failed e f fits a b = refl
  is_failed-rest Outcome.cancelled e f fits a b = cc b
  is_failed-rest (Outcome.unsupported _) e f fits a b = elim fits [ ]

  -- An attempt that failed stands before the others.
  LoopEnd-cons :
      (r : Observation) (attempts : List Observation) (n : ℕ) (result : HopEnd)
      → is_failed r.outcome ≡ true
      → succeeded r.outcome ≡ false
      → LoopEnd attempts n result
      → LoopEnd (r ∷ attempts) (suc n) result
  LoopEnd-cons r attempts n _ failed other (interrupted i) = interrupted i
  LoopEnd-cons r attempts n _ failed other (exhausted all count) =
      exhausted (rw (failed, all) refl) (ap suc count)
  LoopEnd-cons r [] n _ failed other (responded e) = cc e
  LoopEnd-cons r (s ∷ attempts) n _ failed other (responded e) = responded e

  pub Run-LoopEnd :
      (u : Url) {candidates : List Bytes} {attempts : List Observation} {result : HopEnd}
      → Run u candidates attempts result
      → LoopEnd attempts (length candidates) result
  Run-LoopEnd u done = exhausted refl refl
  Run-LoopEnd u broken = interrupted by_bad_evidence
  Run-LoopEnd u (last {rest = rest} r valid same fits) = fits (suc (length rest))
  Run-LoopEnd u (next r valid same fits run) =
      LoopEnd-cons r _ _ _
        (is_failed-rest r.outcome _ _ (is_valid-OutcomeFits r valid) fits.0 fits.1) fits.0
        (Run-LoopEnd u run)

  -- What a hop does behind its resolution.
  pub data Tried (u : Url) (r : Resolution) : List Observation → HopEnd → Type 0 where
    stopped_before :
        {status : Status} {reason : StopReason} {detail : Detail}
        → Interrupted status reason
        → Tried u r [] (ended status reason detail)
    unresolved :
        {detail : Detail}
        → is_failed r.outcome ≡ true
        → Tried u r [] (ended stopped resolution_failed detail)
    no_public :
        {detail : Detail}
        → succeeded r.outcome ≡ true
        → candidates_of w r ≡ []
        → Tried u r [] (ended stopped no_public_candidates detail)
    tried :
        {attempts : List Observation} {result : HopEnd}
        → succeeded r.outcome ≡ true
        → is_empty (candidates_of w r) ≡ false
        → Run u (candidates_of w r) attempts result
        → Tried u r attempts result

  LoopEnd-ended :
      (attempts : List Observation) (n : ℕ) (result : HopEnd)
      → LoopEnd attempts n result
      → result ≢ panicked
  LoopEnd-ended attempts n _ (interrupted i) e = cc e
  LoopEnd-ended attempts n _ (exhausted all count) e = cc e
  LoopEnd-ended attempts n _ (responded found) e = cc e

  Tried-ended :
      (u : Url) (r : Resolution) (attempts : List Observation) (result : HopEnd)
      → Tried u r attempts result
      → result ≢ panicked
  Tried-ended u r _ _ (stopped_before i) e = cc e
  Tried-ended u r _ _ (unresolved failed) e = cc e
  Tried-ended u r _ _ (no_public found none_left) e = cc e
  Tried-ended u r attempts result (tried found some_left run) e =
      LoopEnd-ended attempts _ result (Run-LoopEnd u run) e

  -- A hop, and what it ends with.
  pub data HopRun (u : Url) : Option Hop → HopEnd → Type 0 where
    no_hop :
        {status : Status} {reason : StopReason} {detail : Detail}
        → Interrupted status reason
        → HopRun u none (ended status reason detail)
    one_hop :
        {attempts : List Observation} {result : HopEnd} (r : Resolution)
        → is_valid_resolution w r ≡ true
        → is_resolution_of w u r ≡ true
        → Tried u r attempts result
        → HopRun u (some (hop_of w u r attempts)) result

  abbrev pub HopRunOf : Url → HopResult → Type 0
  HopRunOf u h = HopRun u h.hop h.result

  module _ (u : Url) (r : Resolution) (valid : is_valid_resolution w r ≡ true)
      (same : is_resolution_of w u r ≡ true) where
    observe_addresses-HopRun :
        (time : ℕ) (candidates : List Bytes)
        → succeeded r.outcome ≡ true
        → candidates_of w r ≡ candidates
        → HopRunOf u (observe_addresses w u time r candidates)
    unfolding observe_addresses
    observe_addresses-HopRun time [] found e = one_hop r valid same (no_public found e)
    observe_addresses-HopRun time (candidate ∷ rest) found e =
        one_hop r valid same
          (tried found (rw e refl) (rw e (observe_candidates-Run u time (candidate ∷ rest))))

    fits_as : (outcome : Outcome) → r.outcome ≡ outcome → OutcomeFits outcome r.evidence r.failure
    fits_as outcome e =
        subst (λ o. OutcomeFits o r.evidence r.failure) e
          (resolution-OutcomeFits w.net r (ok_of_is_ok valid))

    observe_evidence-HopRun :
        (time : ℕ) (evidence : Option SystemResolver.Evidence)
        → r.outcome ≡ Outcome.succeeded
        → r.evidence ≡ evidence
        → HopRunOf u (observe_evidence w u time r evidence)
    unfolding candidates_of select_from
    observe_evidence-HopRun time (some x) e v =
        observe_addresses-HopRun time _ (rw e refl) (rw (candidates_of, e, v) refl)
    observe_evidence-HopRun time none e v =
        elim (success_has_evidence SystemResolver.Evidence r.failure (
          subst (λ x. OutcomeFits Outcome.succeeded x r.failure) v
            (fits_as Outcome.succeeded e))) [ ]

    observe_failure-HopRun :
        (time : ℕ) (failure : Option Failure)
        → r.outcome ≡ Outcome.failed
        → r.failure ≡ failure
        → HopRunOf u (observe_failure w u time r failure)
    observe_failure-HopRun time (some f) e v = one_hop r valid same (unresolved (rw e refl))
    observe_failure-HopRun time none e v =
        elim (failure_has_detail SystemResolver.Evidence r.evidence
          (subst (λ x. OutcomeFits Outcome.failed r.evidence x) v (fits_as Outcome.failed e))) [ ]

    observe_outcome-HopRun :
        (time : ℕ) (outcome : Outcome)
        → r.outcome ≡ outcome
        → HopRunOf u (observe_outcome w u time r)
    unfolding observe_outcome candidates_of select_from
    observe_outcome-HopRun time Outcome.cancelled e =
        rw (observe_outcome, e) (one_hop r valid same (stopped_before by_cancel))
    observe_outcome-HopRun time Outcome.succeeded e =
        rw (observe_outcome, e) (observe_evidence-HopRun time r.evidence e refl)
    observe_outcome-HopRun time Outcome.failed e =
        rw (observe_outcome, e) (observe_failure-HopRun time r.failure e refl)
    observe_outcome-HopRun time (Outcome.unsupported s) e =
        elim (fits_as (Outcome.unsupported s) e) [ ]

    observe_resolution-HopRun : (time : ℕ) → HopRunOf u (observe_resolution w u time r)
    unfolding observe_resolution
    observe_resolution-HopRun time = elim (Option-cases (terminal_context (w.contexts time))) [
      | inl running ↦
          rw (observe_resolution, running) (observe_outcome-HopRun (time + 1) r.outcome refl)
      | inr (stop, e) ↦
          rw (observe_resolution, e)
            (one_hop r valid same
              (stopped_before (rw e at (terminal_context-Interrupted (w.contexts time)))))
    ]

  pub observe_hop-HopRun : (u : Url) (time : ℕ) → HopRunOf u (observe_hop w u time)
  unfolding observe_hop
  observe_hop-HopRun u time = elim (Option-cases (terminal_context (w.contexts time))) [
    | inr (stop, e) ↦
        rw (observe_hop, e) (no_hop (rw e at (terminal_context-Interrupted (w.contexts time))))
    | inl running ↦
        let r = w.resolver (time + 1) (host_of w u) in
        elim (Bool-cases (is_valid_resolution w r)) [
          | inr invalid ↦ rw (observe_hop, running, invalid) (no_hop by_bad_evidence)
          | inl valid ↦ elim (Bool-cases (is_resolution_of w u r)) [
            | inr other ↦ rw (observe_hop, running, valid, other) (no_hop by_bad_evidence)
            | inl same ↦
                rw (observe_hop, running, valid, same)
                  (observe_resolution-HopRun u r valid same (time + 2))
          ]
        ]
  ]

  -- No hop reads a nil pointer.
  pub HopRun-ended :
      (u : Url) (hop : Option Hop) (result : HopEnd) → HopRun u hop result → result ≢ panicked
  HopRun-ended u _ _ (no_hop i) e = cc e
  HopRun-ended u _ result (one_hop {attempts = attempts} r valid same t) e =
      Tried-ended u r attempts result t e
