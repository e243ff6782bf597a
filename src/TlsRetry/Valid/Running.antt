-- ===== src/TlsRetry/Valid/Running.antt =====
-- The state of the retry loop between two attempts, and the state in which it leaves a target.
use reachrun.Prelude.{
  ℕ, ◌+◌, ◌≤◌, Bool, true, false, Option, none, some, List, [], ◌∷◌, ◌++◌, ◌≡◌, refl, arith,
  bytes_eq, bytes_eq_refl, length, is_empty, All, IfSome, ok,
}
use reachrun.Probe.{Source}
use reachrun.TlsRetry.{
  attempt_limit, Observation, TargetStatus, Attempt, TargetResult, should_retry, is_cancelled,
}
use reachrun.TlsRetry.Attempts.{RunState, World}
use reachrun.TlsRetry.Checks.{Batch, validate_status, validate_settled, validate_target}
use reachrun.TlsRetry.Valid.Sequence.{last_or, IsSequence, CancelFits, Known, validate_attempts-ok}

pub last_or-append :
    (before : Option Observation) (xs : List Attempt) (a : Attempt)
    → last_or before (xs ++ a ∷ []) ≡ some a.observation
last_or-append before [] a = refl
last_or-append before (x ∷ xs) a = last_or-append (some x.observation) xs a

pub is_empty-append : (xs : List Attempt) (a : Attempt) → is_empty (xs ++ a ∷ []) ≡ false
is_empty-append [] a = refl
is_empty-append (x ∷ xs) a = refl

abbrev pub IsOngoing : Attempt → Type 0
IsOngoing a = is_cancelled a.observation.outcome ≡ false

-- The batch that a world's run is part of.
abbrev pub batch_of : World → Bool → Batch
batch_of w is_completed = record {
  is_completed = is_completed;
  platform = w.platform;
  target_family = w.target_family;
  observation_valid = w.observation_valid;
}

-- A batch is completed only when its targets are.
abbrev pub Agrees : Batch → TargetResult → Type 0
Agrees b t = b.is_completed ≡ true → t.status ≡ TargetStatus.completed

pub record Running (b : Batch) (n : ℕ) (t : TargetResult) (s : RunState) : Type 0 where
  pub family : bytes_eq t.family (b.target_family t.dial_ip) ≡ true
  pub array : t.attempts_nil ≡ false
  pub attempts : IsSequence b t.dial_ip 0 none t.attempts
  pub size : length t.attempts + 1 ≡ n
  pub few : n ≤ attempt_limit
  pub ongoing : All IsOngoing t.attempts
  pub source : All (λ a. s.source ≡ some a.observation.source) t.attempts
  pub retry : IfSome (λ o. should_retry o ≡ true) Unit (last_or none t.attempts)

pub record Settled (b : Batch) (t : TargetResult) (s : RunState) : Type 0 where
  pub family : bytes_eq t.family (b.target_family t.dial_ip) ≡ true
  pub array : t.attempts_nil ≡ false
  pub status : validate_status b t ≡ ok tt
  pub few : length t.attempts ≤ attempt_limit
  pub attempts : IsSequence b t.dial_ip 0 none t.attempts
  pub source : All (λ a. s.source ≡ some a.observation.source) t.attempts
  pub cancel : CancelFits b t.dial_ip t t.attempts
  pub last : validate_settled b t t.dial_ip ≡ ok tt

pub validate_target-Settled :
    (b : Batch) (t : TargetResult) (s : RunState) (known : Option Source)
    → Settled b t s
    → Known s.source known
    → (k : Option Source) × (validate_target b t t.dial_ip known ≡ ok k) × Known s.source k
unfolding validate_target
validate_target-Settled b t s known h k =
    let family = h.family in
    let array = h.array in
    let status = h.status in
    let few = h.few in
    let last = h.last in
    let (r, found, known') =
      validate_attempts-ok b t.dial_ip t s.source 0 none t.attempts known h.attempts h.source
        h.cancel k in
    (
      r,
      rw (bytes_eq_refl t.dial_ip)
          (rw family (rw status (rw found (rw last (ground (arith, few, array)))))),
      known',
    )
