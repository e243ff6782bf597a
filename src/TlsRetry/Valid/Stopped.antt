-- ===== src/TlsRetry/Valid/Stopped.antt =====
-- What is kept of a target at every point where the loop can leave it, and the two ways in which it
-- does: interrupted, and completed.
use reachrun.Prelude.{
  ◌≤◌, true, false, none, some, List, [], ◌∷◌, ◌++◌, ◌≡◌, ◌⊎◌, inl, inr, refl, Bytes, bytes_eq,
  length, is_empty, All, Bool-cases,
}
use reachrun.TlsRetry.{
  attempt_limit, TargetStatus, Attempt, TargetResult, is_cancelled, interrupt_target,
}
use reachrun.TlsRetry.Attempts.{RunState}
use reachrun.TlsRetry.Checks.{Batch, validate_status, is_interrupted, validate_settled}
use reachrun.TlsRetry.Valid.Sequence.{IsSequence, CancelFits}
use reachrun.TlsRetry.Valid.Running.{Settled, Agrees, IsOngoing}

-- Only the last attempt may be cancelled.
abbrev pub OnlyLast : List Attempt → Type 0
OnlyLast [] = Unit
OnlyLast (a ∷ rest) =
    (is_cancelled a.observation.outcome ≡ true → is_empty rest ≡ true) × OnlyLast rest

pub OnlyLast-ongoing : (xs : List Attempt) → All IsOngoing xs → OnlyLast xs
OnlyLast-ongoing [] h = tt
OnlyLast-ongoing (a ∷ xs) h = (λ c. cc (c, h.0), OnlyLast-ongoing xs h.1)

pub OnlyLast-append : (xs : List Attempt) (a : Attempt) → All IsOngoing xs → OnlyLast (xs ++ a ∷ [])
OnlyLast-append [] a h = (λ c. refl, tt)
OnlyLast-append (x ∷ xs) a h = (λ c. cc (c, h.0), OnlyLast-append xs a h.1)

module _ (b : Batch) (ip : Bytes) (t : TargetResult) where
  CancelFits-OnlyLast :
      (xs : List Attempt)
      → OnlyLast xs
      → (is_empty xs ≡ false → is_interrupted t.status ≡ true)
      → b.is_completed ≡ false
      → CancelFits b ip t xs
  CancelFits-OnlyLast [] h stopped e = tt
  CancelFits-OnlyLast (a ∷ []) h stopped e = (λ c. (stopped refl, h.0 c, e), tt)
  CancelFits-OnlyLast (a ∷ a' ∷ xs) h stopped e =
      (λ c. (stopped refl, h.0 c, e), CancelFits-OnlyLast (a' ∷ xs) h.1 (λ _. stopped refl) e)

  pub CancelFits-ongoing : (xs : List Attempt) → All IsOngoing xs → CancelFits b ip t xs
  CancelFits-ongoing [] h = tt
  CancelFits-ongoing (a ∷ xs) h = (λ c. cc (c, h.0), CancelFits-ongoing xs h.1)

-- What a target has at every point where the loop can leave it.
pub record Kept (b : Batch) (t : TargetResult) (s : RunState) : Type 0 where
  pub family : bytes_eq t.family (b.target_family t.dial_ip) ≡ true
  pub array : t.attempts_nil ≡ false
  pub attempts : IsSequence b t.dial_ip 0 none t.attempts
  pub few : length t.attempts ≤ attempt_limit
  pub source : All (λ a. s.source ≡ some a.observation.source) t.attempts
  pub cancel : OnlyLast t.attempts

interrupted_status :
    (t : TargetResult)
    → ((interrupt_target t).status ≡ TargetStatus.not_started) × (is_empty t.attempts ≡ true)
      ⊎ ((interrupt_target t).status ≡ TargetStatus.interrupted) × (is_empty t.attempts ≡ false)
interrupted_status t = elim (Bool-cases (is_empty t.attempts)) [
  | inl h ↦ inl (rw h refl, h)
  | inr h ↦ inr (rw h refl, h)
]

pub interrupt_target-Settled :
    (b : Batch) (t : TargetResult) (s : RunState)
    → Kept b t s
    → Agrees b (interrupt_target t)
    → Settled b (interrupt_target t) s
unfolding validate_status validate_settled
interrupt_target-Settled b t s h agrees = elim (Bool-cases b.is_completed) [
  | inl c ↦ elim (interrupted_status t) [ inl e ↦ cc (agrees c, e.0) | inr e ↦ cc (agrees c, e.0) ]
  | inr c ↦ record {
    family = h.family;
    array = h.array;
    attempts = h.attempts;
    few = h.few;
    source = h.source;
    status = elim (interrupted_status t) [
      | inl e ↦ rw (e.0, e.1, c) refl
      | inr e ↦ rw (e.0, e.1, c) refl
    ];
    last = elim (interrupted_status t) [ inl e ↦ rw e.0 refl | inr e ↦ rw e.0 refl ];
    cancel =
        CancelFits-OnlyLast b t.dial_ip (interrupt_target t) t.attempts h.cancel (λ e. rw e refl) c;
  }
]
