-- ===== src/TlsRetry/Attempts.antt =====
-- runTarget, validateObservation, acceptSource and fail of internal/tlsretrybatch/observer.go.
use reachrun.Prelude.{
  ℕ, zero, suc, ◌+◌, ◌/◌, Bool, true, false, not, ◌&&◌, ◌||◌, Option, none, some, [], ◌∷◌, ◌++◌,
  ltb, ◌==◌, if◌then◌else◌, Bytes, ℤ, pos, negsuc, ◌≡◌,
}
use reachrun.Probe.{Platform, Source, source_eq, platform_eq}
use reachrun.TlsRetry.{
  attempt_limit, millisecond, backoff_min, backoff_max, Observation, TargetStatus, TargetResult,
  should_retry, input_eq, expected_tls_input, interrupt_target, is_cancelled, is_succeeded,
}

pub data StopReason : Type 0 where
  invalid_probe_evidence scheduler_failure : StopReason

-- `runState`: the first failure, and the source of the first observation that was accepted.
pub record RunState : Type 0 where
  pub failure : Option StopReason
  pub source : Option Source

-- What one target's sequence meets, by the number of the attempt: whether the batch context is done
-- at each of the tests of it, the delay drawn, whether `wait` fails, the observation, and what the
-- other workers do to the shared state before the lock is taken for it.
pub record World : Type 0 where
  pub platform : Platform
  pub target_family : Bytes → Bytes
  pub observation_valid : Observation → Bool
  pub done_before : ℕ → Bool
  pub retry_delay : ℕ → ℤ
  pub wait_fails : ℕ → Bool
  pub done_waiting : ℕ → Bool
  pub observe : ℕ → Observation
  pub done_observed : ℕ → Bool
  pub others : ℕ → RunState → RunState
  pub done_appended : ℕ → Bool

-- `state.fail`: the first failure stays.
unfoldable pub fail : StopReason → RunState → RunState
fail why s = record s { failure = elim s.failure [ none ↦ some why | some first ↦ some first ] }

-- `acceptSource`: `none` is the error.
unfoldable pub accept_source : Source → RunState → Option RunState
accept_source source s = elim s.source [
  | none ↦ some (record s { source = some source })
  | some first ↦ if source_eq source first then some s else none
]

-- A delay in nanoseconds, or the state in which the target is interrupted.
pub data Backoff : Type 0 where
  go : ℕ → Backoff
  stop : RunState → Backoff

module _ (w : World) where
  unfoldable pub validate_observation : Observation → Bytes → RunState → Option RunState
  validate_observation o ip s =
      if not (w.observation_valid o)
      then none
      else if not (platform_eq o.platform w.platform)
          || not (input_eq o.input (expected_tls_input w.target_family ip))
      then none
      else accept_source o.source s

  unfoldable pub delay_in_bounds : ℕ → ℕ → RunState → Backoff
  delay_in_bounds n delay s =
      if ltb delay backoff_min || ltb backoff_max delay
      then stop (fail scheduler_failure s)
      else if w.wait_fails n
      then stop (if w.done_waiting n then s else fail scheduler_failure s)
      else go delay

  -- What stands before the observation of attempt `n`.
  unfoldable pub backoff : ℕ → RunState → Backoff
  backoff n s = if n == 1 then go 0 else elim (w.retry_delay n) [
    | negsuc _ ↦ stop (fail scheduler_failure s)
    | pos delay ↦ delay_in_bounds n delay s
  ]

  abbrev pub append_attempt : ℕ → ℕ → Observation → TargetResult → TargetResult
  append_attempt n delay o t = record t {
    attempts =
        t.attempts
        ++ record { number = n; retry_delay_ms = delay / millisecond; observation = o } ∷ [];
    attempts_nil = false;
  }

  -- Behind the append; `next` makes the following attempts.
  unfoldable pub settle :
      ℕ
      → TargetResult
      → RunState
      → (TargetResult → RunState → TargetResult × RunState)
      → TargetResult × RunState
  settle n t s next = elim (w.done_appended n) [
    | true ↦ (interrupt_target t, s)
    | false ↦ elim (is_cancelled (w.observe n).outcome) [
      | true ↦ (interrupt_target t, fail invalid_probe_evidence s)
      | false ↦ elim (not (should_retry (w.observe n)) || n == attempt_limit) [
        | true ↦ (record t { status = TargetStatus.completed }, s)
        | false ↦ next t s
      ]
    ]
  ]

  unfoldable pub attempt :
      ℕ
      → ℕ
      → TargetResult
      → RunState
      → (TargetResult → RunState → TargetResult × RunState)
      → TargetResult × RunState
  attempt n delay t s next =
      let o = w.observe n in
      let s' = w.others n s in
      elim (w.done_observed n && is_succeeded o.outcome) [
        | true ↦ (interrupt_target t, s')
        | false ↦ elim (validate_observation o t.dial_ip s') [
          | none ↦ (interrupt_target t, fail invalid_probe_evidence s')
          | some accepted ↦ settle n (append_attempt n delay o t) accepted next
        ]
      ]

  -- The loop from attempt `n` on, with `left` attempts to go.
  unfoldable pub attempt_loop : ℕ → ℕ → TargetResult → RunState → TargetResult × RunState
  attempt_loop zero n t s = (t, s)
  attempt_loop (suc left) n t s = elim (w.done_before n) [
    | true ↦ (interrupt_target t, s)
    | false ↦ elim (backoff n s) [
      | stop s' ↦ (interrupt_target t, s')
      | go delay ↦ attempt n delay t s (attempt_loop left (n + 1))
    ]
  ]

  unfoldable pub run_target : TargetResult → RunState → TargetResult × RunState
  run_target = attempt_loop attempt_limit 1

-- The other workers run the same code: they keep a source that is set.
pub record IsShared (w : World) : Type 0 where
  pub source_kept :
      (n : ℕ) (s : RunState) (x : Source) → s.source ≡ some x → (w.others n s).source ≡ some x
