-- ===== src/TlsRetry/Valid/Draws.antt =====
-- The steps of one attempt of runTarget against the checks: the delay in front of it, the observation
-- that is accepted, and the source that is kept.
use reachrun.Prelude.{
  ℕ, ◌/◌, ◌≤◌, true, none, some, List, [], ◌∷◌, ◌≡◌, ◌≢◌, ◌⊎◌, inl, inr, refl, subst, arith, Bytes,
  length, All, IfSome, ok, Option-cases,
}
use reachrun.Probe.{Source, platform_eq, source-eq}
use reachrun.TlsRetry.{
  millisecond, backoff_min, backoff_max, Observation, Attempt, TargetResult, should_retry, input_eq,
  expected_tls_input,
}
use reachrun.TlsRetry.Attempts.{
  StopReason, RunState, World, fail, accept_source, Backoff, go, stop, validate_observation,
  delay_in_bounds, backoff, scheduler_failure,
}
use reachrun.TlsRetry.Checks.{Batch, validate_delay}
use reachrun.TlsRetry.Valid.Sequence.{last_or}
use reachrun.TlsRetry.Valid.Running.{Running}
use reachrun.TlsRetry.Valid.Stopped.{OnlyLast-ongoing, Kept}

-- The first attempt has no observation in front of it, and every other one has.
last_or-cases :
    (xs : List Attempt)
    → (length xs ≡ 0) × (last_or none xs ≡ none)
      ⊎ (o : Observation) × (length xs ≢ 0) × (last_or none xs ≡ some o)
last_or-cases [] = inl (refl, refl)
last_or-cases (a ∷ xs) =
    let (o, e) = last_or-some a.observation xs in inr (o, (λ z. omega (arith, z)), e)
  where
    last_or-some :
        (o : Observation) (xs : List Attempt) → (r : Observation) × (last_or (some o) xs ≡ some r)
    last_or-some o [] = (o, refl)
    last_or-some o (a ∷ xs) = last_or-some a.observation xs

validate_delay-in_bounds :
    (before o : Observation) (n delay : ℕ)
    → backoff_min ≤ delay
    → delay ≤ backoff_max
    → should_retry before ≡ true
    → validate_delay
        (some before)
        (record { number = n; retry_delay_ms = delay / millisecond; observation = o })
      ≡ ok tt
unfolding validate_delay
validate_delay-in_bounds before o n delay lo hi r = ground (arith, lo, hi, r)

accept_source-some :
    (x : Source) (s s' : RunState)
    → accept_source x s ≡ some s'
    → (s'.source ≡ some x) × ((y : Source) → s.source ≡ some y → s'.source ≡ some y)
unfolding accept_source
accept_source-some x s s' e = elim (Option-cases s.source) [
  | inl n ↦ ground arith
  | inr (first, n) ↦ ground (arith, source-eq x first)
]

pub Backoff-cases : (r : Backoff) → ((s : RunState) × (r ≡ stop s)) ⊎ ((delay : ℕ) × (r ≡ go delay))
Backoff-cases (stop s) = inl (s, refl)
Backoff-cases (go delay) = inr (delay, refl)

fail-keeps :
    (why : StopReason) (s : RunState) (x : Source)
    → s.source ≡ some x
    → (fail why s).source ≡ some x
unfolding fail
fail-keeps why s x e = e

pub All-keeps :
    (s s' : RunState)
    → ((x : Source) → s.source ≡ some x → s'.source ≡ some x)
    → (xs : List Attempt) → All (λ a. s.source ≡ some a.observation.source) xs
    → All (λ a. s'.source ≡ some a.observation.source) xs
All-keeps s s' keeps [] h = tt
All-keeps s s' keeps (a ∷ xs) h = (keeps a.observation.source h.0, All-keeps s s' keeps xs h.1)

pub Running-Kept :
    (b : Batch) (n : ℕ) (t : TargetResult) (s s' : RunState)
    → ((x : Source) → s.source ≡ some x → s'.source ≡ some x)
    → Running b n t s
    → Kept b t s'
Running-Kept b n t s s' keeps h =
    let size = h.size in
    let few = h.few in
    record {
      family = h.family;
      array = h.array;
      attempts = h.attempts;
      few = omega arith;
      source = All-keeps s s' keeps t.attempts h.source;
      cancel = OnlyLast-ongoing t.attempts h.ongoing;
    }

pub Kept-fail :
    (b : Batch) (why : StopReason) (t : TargetResult) (s : RunState)
    → Kept b t s
    → Kept b t (fail why s)
unfolding fail
Kept-fail b why t s h = record {
  family = h.family;
  array = h.array;
  attempts = h.attempts;
  few = h.few;
  source = h.source;
  cancel = h.cancel;
}

module _ (w : World) where
  -- What `backoff` lets through: no delay in front of the first attempt, one in the bounds else.
  backoff-go :
      (n : ℕ) (s : RunState) (delay : ℕ)
      → backoff w n s ≡ go delay
      → (n ≡ 1) × (delay ≡ 0) ⊎ (n ≢ 1) × (backoff_min ≤ delay) × (delay ≤ backoff_max)
  unfolding backoff delay_in_bounds
  backoff-go n s delay e = ground arith

  -- The delay in front of attempt `n` is one that the checks allow there.
  pub backoff-delay :
      (b : Batch) (n : ℕ) (t : TargetResult) (s : RunState) (delay : ℕ) (o : Observation)
      → Running b n t s
      → backoff w n s ≡ go delay
      → validate_delay
          (last_or none t.attempts)
          (record { number = n; retry_delay_ms = delay / millisecond; observation = o })
        ≡ ok tt
  unfolding validate_delay
  backoff-delay b n t s delay o h e =
      let size = h.size in
      let retry = h.retry in
      elim (last_or-cases t.attempts) [
        | inl first ↦ elim (backoff-go n s delay e) [
          | inl none_drawn ↦ rw (first.1, none_drawn.1) refl
          | inr drawn ↦ absurd (drawn.0 (omega (arith, size, first.0)))
        ]
        | inr later ↦ elim (backoff-go n s delay e) [
          | inl none_drawn ↦ absurd (later.1 (omega (arith, size, none_drawn.0)))
          | inr drawn ↦ rw later.2 (
              validate_delay-in_bounds later.0 o n delay drawn.1 drawn.2
                (subst (λ m. IfSome (λ o. should_retry o ≡ true) Unit m) later.2 retry))
        ]
      ]

  -- What an accepted observation is, and what it leaves of the source.
  pub validate_observation-some :
      (o : Observation) (ip : Bytes) (s s' : RunState)
      → validate_observation w o ip s ≡ some s'
      → (w.observation_valid o ≡ true)
        × (platform_eq o.platform w.platform ≡ true)
        × (input_eq o.input (expected_tls_input w.target_family ip) ≡ true)
        × (s'.source ≡ some o.source)
        × ((x : Source) → s.source ≡ some x → s'.source ≡ some x)
  unfolding validate_observation
  validate_observation-some o ip s s' e =
      let (h, accepted) = checked e in
      let (x, keeps) = accept_source-some o.source s s' accepted in (h.0, h.1, h.2, x, keeps)
    where
      checked :
          validate_observation w o ip s ≡ some s'
          → ((w.observation_valid o ≡ true)
              × (platform_eq o.platform w.platform ≡ true)
              × (input_eq o.input (expected_tls_input w.target_family ip) ≡ true))
            × (accept_source o.source s ≡ some s')
      checked e = ground arith

  pub backoff-stop :
      (n : ℕ) (s s' : RunState)
      → backoff w n s ≡ stop s'
      → (x : Source) → s.source ≡ some x
      → s'.source ≡ some x
  unfolding backoff delay_in_bounds
  backoff-stop n s s' e x h = ground (arith, fail-keeps scheduler_failure s x h)
