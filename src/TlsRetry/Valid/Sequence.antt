-- ===== src/TlsRetry/Valid/Sequence.antt =====
-- Retry sequences: what validateTarget asks of a list of attempts, as a predicate that grows with
-- the list.
use reachrun.Prelude.{
  ℕ, ◌+◌, true, false, Option, none, some, List, [], ◌∷◌, ◌++◌, ◌≡◌, ◌⊎◌, inl, inr, refl, sym, ◌∙◌,
  subst, arith, Bytes, length, is_empty, All, ok, Bool-cases,
}
use reachrun.Probe.{Source, source_eq_refl, platform_eq}
use reachrun.TlsRetry.{
  Observation, Attempt, TargetResult, input_eq, expected_tls_input, is_cancelled,
}
use reachrun.TlsRetry.Checks.{
  Batch, validate_delay, is_interrupted, validate_source, validate_attempts,
}

-- The observation in front of what follows a list of attempts.
abbrev pub last_or : Option Observation → List Attempt → Option Observation
last_or before [] = before
last_or before (a ∷ rest) = last_or (some a.observation) rest

-- The source is not known yet, or it is that of the run.
abbrev pub Known : Option Source → Option Source → Type 0
Known run known = (known ≡ none) ⊎ (known ≡ run)

validate_source-Known :
    (run known : Option Source) (s : Source)
    → run ≡ some s
    → Known run known
    → validate_source known s ≡ ok s
unfolding validate_source
validate_source-Known run known s e (inl k) = rw k refl
validate_source-Known run known s e (inr k) = rw (k ∙ e) (ground (arith, source_eq_refl s))

module _ (b : Batch) (ip : Bytes) where
  -- One attempt that the batch accepts behind `before`.
  pub record IsAttempt (index : ℕ) (before : Option Observation) (a : Attempt) : Type 0 where
    pub number : a.number ≡ index + 1
    pub delay : validate_delay before a ≡ ok tt
    pub valid : b.observation_valid a.observation ≡ true
    pub platform : platform_eq a.observation.platform b.platform ≡ true
    pub request : input_eq a.observation.input (expected_tls_input b.target_family ip) ≡ true

  abbrev pub IsSequence : ℕ → Option Observation → List Attempt → Type 0
  IsSequence index before [] = Unit
  IsSequence index before (a ∷ rest) =
      IsAttempt index before a × IsSequence (index + 1) (some a.observation) rest

  pub IsSequence-append :
      (index j : ℕ) (before : Option Observation) (xs : List Attempt) (a : Attempt)
      → j ≡ index + length xs
      → IsSequence index before xs
      → IsAttempt j (last_or before xs) a
      → IsSequence index before (xs ++ a ∷ [])
  IsSequence-append index j before [] a e s h =
      (subst (λ i. IsAttempt i before a) (omega arith) h, tt)
  IsSequence-append index j before (x ∷ xs) a e s h =
      (s.0, IsSequence-append (index + 1) j (some x.observation) xs a (omega arith) s.1 h)

  -- A cancelled attempt is the last of an interrupted target in a batch that is not completed.
  abbrev pub CancelFits : TargetResult → List Attempt → Type 0
  CancelFits t [] = Unit
  CancelFits t (a ∷ rest) =
      (is_cancelled a.observation.outcome ≡ true
        → (is_interrupted t.status ≡ true) × (is_empty rest ≡ true) × (b.is_completed ≡ false))
      × CancelFits t rest

  pub validate_attempts-ok :
      (t : TargetResult) (run : Option Source) (index : ℕ) (before : Option Observation)
      (xs : List Attempt) (known : Option Source)
      → IsSequence index before xs
      → All (λ a. run ≡ some a.observation.source) xs
      → CancelFits t xs
      → Known run known
      → (k : Option Source) × (validate_attempts b t ip index before xs known ≡ ok k) × Known run k
  unfolding validate_attempts
  validate_attempts-ok t run index before [] known q s c k = (known, refl, k)
  validate_attempts-ok t run index before (a ∷ rest) known q s c k =
      let o = a.observation in
      let first = validate_source-Known run known o.source s.0 k in
      let (r, found, known') =
        validate_attempts-ok t run (index + 1) (some o) rest (some o.source) q.1 s.1 c.1
          (inr (sym s.0)) in
      let h = q.0 in
      let number = h.number in
      let delay = h.delay in
      let valid = h.valid in
      let platform = h.platform in
      let request = h.request in
      elim (Bool-cases (is_cancelled o.outcome)) [
        | inl halted ↦
            let (stopped, alone, open_batch) = c.0 halted in
            (r, rw delay (rw valid (rw platform (rw request (rw first (ground arith))))), known')
        | inr ongoing ↦
            (r, rw delay (rw valid (rw platform (rw request (rw first (ground arith))))), known')
      ]
