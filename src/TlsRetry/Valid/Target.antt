-- ===== src/TlsRetry/Valid/Target.antt =====
-- The loop of runTarget against validateTarget.
use reachrun.Prelude.{
  ℕ, zero, suc, ◌+◌, ◌/◌, ◌≤◌, Bool, true, false, not, ◌&&◌, ◌||◌, Option, none, some, List, [],
  ◌∷◌, ◌++◌, ◌≡◌, inl, inr, refl, sym, subst, arith, ◌==◌, Bytes, bytes_eq_refl, length,
  length-append, All, All-append, ok, Bool-cases, Option-cases,
}
use reachrun.Probe.{Source}
use reachrun.TlsRetry.{
  attempt_limit, millisecond, TargetStatus, Attempt, TargetResult, should_retry, is_cancelled,
  interrupt_target, is_succeeded,
}
use reachrun.TlsRetry.Attempts.{
  RunState, World, fail, go, validate_observation, backoff, append_attempt, settle, attempt,
  attempt_loop, run_target, IsShared, invalid_probe_evidence,
}
use reachrun.TlsRetry.Checks.{
  Batch, validate_status, last_observation, validate_settled, validate_target,
}
use reachrun.TlsRetry.Valid.Sequence.{IsSequence-append, Known}
use reachrun.TlsRetry.Valid.Running.{
  Running, Settled, Agrees, IsOngoing, batch_of, last_or-append, is_empty-append,
  validate_target-Settled,
}
use reachrun.TlsRetry.Valid.Draws.{
  All-keeps, Running-Kept, Kept-fail, Backoff-cases, backoff-delay, validate_observation-some,
  backoff-stop,
}
use reachrun.TlsRetry.Valid.Stopped.{
  OnlyLast-append, CancelFits-ongoing, Kept, interrupt_target-Settled,
}

module _ (w : World) (shared : IsShared w) (is_completed : Bool) where
  abbrev batch : Batch
  batch = batch_of w is_completed

  -- A result that the checks accept.
  abbrev Passes : Bytes → TargetResult × RunState → Type 0
  Passes ip r = Agrees batch r.0 → Settled batch r.0 r.1 × (r.0.dial_ip ≡ ip)

  interrupt-Passes :
      (t : TargetResult) (s : RunState) → Kept batch t s → Passes t.dial_ip (interrupt_target t, s)
  interrupt-Passes t s h agrees = (interrupt_target-Settled batch t s h agrees, refl)

  last_observation-append :
      (t : TargetResult) (ip : Bytes) (xs : List Attempt) (a : Attempt)
      → last_observation batch t ip (xs ++ a ∷ []) ≡ some a.observation
  last_observation-append t ip [] a = refl
  last_observation-append t ip (x ∷ []) a = refl
  last_observation-append t ip (x ∷ y ∷ xs) a = last_observation-append t ip (y ∷ xs) a

  module _ (n delay : ℕ) (before : TargetResult) (s : RunState) where
    abbrev appended : TargetResult
    appended = append_attempt w n delay (w.observe n) before

    -- The target behind one more accepted attempt.
    record Appended : Type 0 where
      size : length before.attempts + 1 ≡ n
      few : n ≤ attempt_limit
      ongoing : All IsOngoing before.attempts
      kept : Kept batch appended s

    abbrev this : Attempt
    this = record { number = n; retry_delay_ms = delay / millisecond; observation = w.observe n }

    completed-Settled :
        Appended
        → is_cancelled (w.observe n).outcome ≡ false
        → not (should_retry (w.observe n)) || n == attempt_limit ≡ true
        → Settled batch (record appended { status = TargetStatus.completed }) s
    unfolding validate_status validate_settled
    completed-Settled a c r =
        let k = a.kept in
        let size = a.size in
        let long = length-append before.attempts (this ∷ []) in
        record {
          family = k.family;
          array = k.array;
          attempts = k.attempts;
          few = k.few;
          source = k.source;
          status = rw (is_empty-append before.attempts this) refl;
          cancel =
              CancelFits-ongoing batch before.dial_ip
                (record appended { status = TargetStatus.completed }) (before.attempts ++ this ∷ [])
                (All-append IsOngoing before.attempts (this ∷ []) a.ongoing (c, tt));
          last =
              rw
                (
                  validate_settled,
                  last_observation-append (record appended { status = TargetStatus.completed })
                      before.dial_ip before.attempts this,
                  c,
                  long,
                )
                (ground (arith, size, r));
        }

    next-Running :
        Appended
        → is_cancelled (w.observe n).outcome ≡ false
        → not (should_retry (w.observe n)) || n == attempt_limit ≡ false
        → Running batch (n + 1) appended s
    next-Running a c r =
        let k = a.kept in
        let size = a.size in
        let few = a.few in
        let long = length-append before.attempts (this ∷ []) in
        record {
          family = k.family;
          array = k.array;
          attempts = k.attempts;
          size = omega (arith, long, size);
          few = ground (arith, few, r);
          source = k.source;
          ongoing = All-append IsOngoing before.attempts (this ∷ []) a.ongoing (c, tt);
          retry = rw (last_or-append none before.attempts this) (ground (arith, r));
        }

    settle-Passes :
        (next : TargetResult → RunState → TargetResult × RunState)
        → Appended
        → (Running batch (n + 1) appended s → Passes appended.dial_ip (next appended s))
        → Passes appended.dial_ip (settle w n appended s next)
    unfolding settle
    settle-Passes next a h = elim (Bool-cases (w.done_appended n)) [
      | inl done ↦ rw (settle, done) (interrupt-Passes appended s a.kept)
      | inr going ↦ elim (Bool-cases (is_cancelled (w.observe n).outcome)) [
        | inl c ↦
            rw (settle, going, c)
              (interrupt-Passes appended (fail invalid_probe_evidence s)
                (Kept-fail batch invalid_probe_evidence appended s a.kept))
        | inr c ↦ elim (Bool-cases (not (should_retry (w.observe n)) || n == attempt_limit)) [
          | inl r ↦ rw (settle, going, c, r) (λ agrees. (completed-Settled a c r, refl))
          | inr r ↦ rw (settle, going, c, r) (h (next-Running a c r))
        ]
      ]
    ]

  accepted-Appended :
      (n delay : ℕ) (t : TargetResult) (s s' : RunState)
      → Running batch n t s
      → backoff w n s ≡ go delay
      → validate_observation w (w.observe n) t.dial_ip (w.others n s) ≡ some s'
      → Appended n delay t s'
  accepted-Appended n delay t s s' h drawn e =
      let o = w.observe n in
      let (valid, platform, request, found, keeps) =
        validate_observation-some w o t.dial_ip (w.others n s) s' e in
      let size = h.size in
      let few = h.few in
      let a : Attempt = record {
        number = n;
        retry_delay_ms = delay / millisecond;
        observation = o;
      } in
      let long = length-append t.attempts (a ∷ []) in
      record {
        size = size;
        few = few;
        ongoing = h.ongoing;
        kept = record {
          family = h.family;
          array = refl;
          few = omega (arith, long, size, few);
          attempts =
              IsSequence-append batch t.dial_ip 0 (length t.attempts) none t.attempts a
                (omega arith) h.attempts
                (record {
                  number = sym size;
                  delay = backoff-delay w batch n t s delay o h drawn;
                  valid = valid;
                  platform = platform;
                  request = request;
                });
          source =
              All-append (λ x. s'.source ≡ some x.observation.source) t.attempts (a ∷ [])
                (All-keeps s s' (λ x k. keeps x (shared.source_kept n s x k)) t.attempts h.source)
                (found, tt);
          cancel = OnlyLast-append t.attempts a h.ongoing;
        };
      }

  attempt-Passes :
      (n delay : ℕ) (t : TargetResult) (s : RunState)
      (next : TargetResult → RunState → TargetResult × RunState)
      → Running batch n t s
      → backoff w n s ≡ go delay
      → ((t' : TargetResult) (s' : RunState)
          → Running batch (n + 1) t' s'
          → Passes t'.dial_ip (next t' s'))
      → Passes t.dial_ip (attempt w n delay t s next)
  unfolding attempt
  attempt-Passes n delay t s next h drawn after =
      let s' = w.others n s in
      let kept = Running-Kept batch n t s s' (shared.source_kept n s) h in
      elim (Bool-cases (w.done_observed n && is_succeeded (w.observe n).outcome)) [
        | inl done ↦ rw (attempt, done) (interrupt-Passes t s' kept)
        | inr going ↦ elim (Option-cases (validate_observation w (w.observe n) t.dial_ip s')) [
          | inl e ↦
              rw (attempt, going, e)
                (interrupt-Passes t (fail invalid_probe_evidence s')
                  (Kept-fail batch invalid_probe_evidence t s' kept))
          | inr (accepted, e) ↦
              rw (attempt, going, e)
                (settle-Passes n delay t accepted next
                  (accepted-Appended n delay t s accepted h drawn e)
                  (after (append_attempt w n delay (w.observe n) t) accepted))
        ]
      ]

  attempt_loop-Passes :
      (left n : ℕ) (t : TargetResult) (s : RunState)
      → left + n ≡ attempt_limit + 1
      → Running batch n t s
      → Passes t.dial_ip (attempt_loop w left n t s)
  unfolding attempt_loop
  attempt_loop-Passes zero n t s e h = let few = h.few in absurd (omega (arith, e, few))
  attempt_loop-Passes (suc left) n t s e h = elim (Bool-cases (w.done_before n)) [
    | inl done ↦
        rw (attempt_loop, done) (interrupt-Passes t s (Running-Kept batch n t s s (λ x k. k) h))
    | inr going ↦ elim (Backoff-cases (backoff w n s)) [
      | inl (s', b) ↦
          rw (attempt_loop, going, b)
            (interrupt-Passes t s' (Running-Kept batch n t s s' (backoff-stop w n s s' b) h))
      | inr (delay, b) ↦
          rw (attempt_loop, going, b)
            (attempt-Passes n delay t s (attempt_loop w left (n + 1)) h b
              (λ t' s' h'. attempt_loop-Passes left (n + 1) t' s' (omega (arith, e)) h'))
    ]
  ]

-- What runTarget makes of a target that has an empty list of attempts, not a nil one, and whose family is that of its address is
-- accepted by validateTarget, in a batch of the run's platform that counts as completed only if the
-- target is, and whatever the delays, the observations, the cancellations and the other workers are,
-- as long as these keep a source that is set. The source known to the checks is absent or that of the
-- run, and is so again behind them.
pub run_target-valid :
    (w : World) (shared : IsShared w) (is_completed : Bool) (t : TargetResult) (s : RunState)
    (known : Option Source)
    → t.attempts ≡ []
    → t.attempts_nil ≡ false
    → t.family ≡ w.target_family t.dial_ip
    → Agrees (batch_of w is_completed) (run_target w t s).0
    → Known (run_target w t s).1.source known
    → (k : Option Source) × (validate_target
          (batch_of w is_completed)
          (run_target w t s).0
          t.dial_ip
          known
        ≡ ok k)
      × Known (run_target w t s).1.source k
unfolding run_target
run_target-valid w shared is_completed t s known none_yet array family agrees k =
    let (settled, same) =
      attempt_loop-Passes w shared is_completed attempt_limit 1 t s refl
        (record {
          family = rw family (bytes_eq_refl (w.target_family t.dial_ip));
          array = array;
          attempts = rw none_yet tt;
          size = rw none_yet refl;
          few = omega arith;
          ongoing = rw none_yet tt;
          source = rw none_yet tt;
          retry = rw none_yet tt;
        })
        agrees in
    let b = batch_of w is_completed in
    let r = run_target w t s in
    subst (λ ip. (k : Option Source) × (validate_target b r.0 ip known ≡ ok k) × Known r.1.source k)
      same (validate_target-Settled b r.0 r.1 known settled k)
