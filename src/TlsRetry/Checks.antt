-- ===== src/TlsRetry/Checks.antt =====
-- validateTarget of internal/tlsretrybatch/validate.go.
use reachrun.Prelude.{
  ℕ, ◌+◌, ◌/◌, Bool, true, false, not, ◌&&◌, ◌||◌, Option, none, some, List, [], ◌∷◌, ltb, ◌==◌,
  if◌then◌else◌, Bytes, bytes_eq, length, is_empty, Result, ok, err, ◌>>=◌, ◌>>◌, reject_if,
}
use reachrun.Probe.{Platform, Source, source_eq, platform_eq}
use reachrun.TlsRetry.{
  attempt_limit, millisecond, backoff_min, backoff_max, Observation, TargetStatus, completed,
  interrupted, not_started, Attempt, TargetResult, should_retry, input_eq, expected_tls_input,
  is_cancelled,
}

pub data TargetError : Type 0 where
  changed_target no_attempts wrong_status too_many_attempts wrong_number wrong_delay not_retryable :
      TargetError
  invalid_observation changed_request changed_source misplaced_cancellation unsettled : TargetError

-- What the checks of a target read of the batch: whether its status is completed, its platform, and
-- the two functions of other packages.
pub record Batch : Type 0 where
  pub is_completed : Bool
  pub platform : Platform
  pub target_family : Bytes → Bytes
  pub observation_valid : Observation → Bool

unfoldable pub validate_status : Batch → TargetResult → Result TargetError Unit
validate_status b t = elim t.status [
  | completed ↦ reject_if (is_empty t.attempts) wrong_status
  | interrupted ↦ reject_if (b.is_completed || is_empty t.attempts) wrong_status
  | not_started ↦ reject_if (b.is_completed || not (is_empty t.attempts)) wrong_status
  | _ ↦ err wrong_status
]

-- The delay in front of the attempt with this index, and what the attempt before it allows.
unfoldable pub validate_delay : Option Observation → Attempt → Result TargetError Unit
validate_delay none a = reject_if (not (a.retry_delay_ms == 0)) wrong_delay
validate_delay (some before) a = do
  reject_if
      (ltb a.retry_delay_ms (backoff_min / millisecond)
        || ltb (backoff_max / millisecond) a.retry_delay_ms)
      wrong_delay
  reject_if (not (should_retry before)) not_retryable

abbrev pub is_interrupted : TargetStatus → Bool
is_interrupted interrupted = true
is_interrupted _ = false

unfoldable pub validate_source : Option Source → Source → Result TargetError Source
validate_source none s = ok s
validate_source (some first) s = if source_eq s first then ok first else err changed_source

module _ (b : Batch) (t : TargetResult) (expected : Bytes) where
  -- The loop over the attempts, from `index` on.
  unfoldable pub validate_attempts :
      ℕ → Option Observation → List Attempt → Option Source → Result TargetError (Option Source)
  validate_attempts index before [] source = ok source
  validate_attempts index before (a ∷ rest) source = do
    reject_if (not (a.number == index + 1)) wrong_number
    validate_delay before a
    reject_if (not (b.observation_valid a.observation)) invalid_observation
    reject_if
        (not (platform_eq a.observation.platform b.platform)
          || not (input_eq a.observation.input (expected_tls_input b.target_family expected)))
        changed_request
    first ← validate_source source a.observation.source
    reject_if
        (is_cancelled a.observation.outcome
          && (not (is_interrupted t.status) || not (is_empty rest) || b.is_completed))
        misplaced_cancellation
    validate_attempts (index + 1) (some a.observation) rest (some first)

  -- `target.Attempts[len(target.Attempts)-1]`.
  abbrev pub last_observation : List Attempt → Option Observation
  last_observation [] = none
  last_observation (a ∷ []) = some a.observation
  last_observation (a ∷ b ∷ rest) = last_observation (b ∷ rest)

  unfoldable pub validate_settled : Result TargetError Unit
  validate_settled = elim t.status [
    | completed ↦ elim (last_observation t.attempts) [
      | none ↦ err wrong_status
      | some last ↦ do
        reject_if (is_cancelled last.outcome) misplaced_cancellation
        reject_if (ltb (length t.attempts) attempt_limit && should_retry last) unsettled
    ]
    | _ ↦ ok tt
  ]

  -- `validateTarget`, with the source known so far and the one known behind it.
  unfoldable pub validate_target : Option Source → Result TargetError (Option Source)
  validate_target source = do
    reject_if
        (not (bytes_eq t.dial_ip expected) || not (bytes_eq t.family (b.target_family expected)))
        changed_target
    reject_if t.attempts_nil no_attempts
    validate_status b t
    reject_if (ltb attempt_limit (length t.attempts)) too_many_attempts
    known ← validate_attempts 0 none t.attempts source
    validate_settled
    ok known
