-- ===== src/SystemResolver/Valid.antt =====
-- What Resolve returns passes Validate.
use reachrun.Prelude.{
  true, false, not, Option, none, some, List, [], ◌∷◌, ◌≡◌, inl, inr, refl, ap, ◌∙◌, arith, Bytes,
  bytes_eq, bytes_eq_refl, bytes_eq_iff, is_empty, IfSome, ok, Bool-cases, Option-cases,
}
use reachrun.Probe.{Outcome, Failure, failure_cancelled, validate, utc, clamp_duration-is_negative}
use reachrun.Probe.Checked.{SourceFits, OutcomeFits, validate_iff}
use reachrun.NetTarget.Address.{NetLibrary, Addr, unmap, IsNetLibrary, unmap_idem}
use reachrun.SystemResolver.{
  Evidence, family_eq, kind_system_resolution, failure_invalid_input, failure_resolution_failure,
}
use reachrun.SystemResolver.Checks.{
  HostnameError, check_hostname, family_of, contains_addr, valid_failure_code, failure_is,
  validate_address, validate_addresses, validate_evidence, validate_hostname, check_outcome,
  validate_resolution,
}
use reachrun.SystemResolver.Resolve.{
  World, Lookup, found, failed, LookupError, ContextError, active, canceled, deadline_exceeded,
  context_error, in_context, classify_failure, normalize_addresses, with_addresses, looked_up,
  resolve, result_of, classified, result_of, classified,
}

-- A world whose clock reads a time that is not zero, and whose platform and source are filled in.
pub record IsSound (w : World) : Type 0 where
  pub time : w.finished_at.is_zero ≡ false
  pub platform : (is_empty w.platform.os ≡ false) × (is_empty w.platform.arch ≡ false)
  pub backend : is_empty w.source.backend ≡ false
  pub source : SourceFits w.source.capability w.source.reason

-- A failure that the checks know, and an outcome that goes with it.
abbrev pub IsClassified : Outcome × Bytes → Type 0
IsClassified (Outcome.cancelled, code) = code ≡ failure_cancelled
IsClassified (Outcome.failed, code) =
    (valid_failure_code code ≡ true)
    × (bytes_eq code failure_cancelled ≡ false)
    × (bytes_eq failure_invalid_input code ≡ false)
    × (is_empty code ≡ false)
IsClassified (_, code) = ⊥

classify_failure-IsClassified :
    (ctx : ContextError) (e : LookupError) → IsClassified (classify_failure ctx e)
unfolding classify_failure valid_failure_code bytes_eq
classify_failure-IsClassified ctx e = ground arith

module _ (lib : NetLibrary) (lawful : IsNetLibrary lib) where
  family_eq_refl : (a : Addr) → family_eq (family_of a) (family_of a) ≡ true
  unfolding family_eq
  family_eq_refl (Addr.v4 n) = refl
  family_eq_refl (Addr.v6 n z) = refl

  -- A new address passes, and is the one that is seen from then on.
  validate_address-new :
      (seen : List Addr) (a : Addr)
      → contains_addr (unmap a) seen ≡ false
      → validate_address lib seen
          (record { ip = lib.addr_text (unmap a); family = family_of (unmap a) })
        ≡ ok (unmap a)
  unfolding validate_address
  validate_address-new seen a new =
      rw (validate_address, lawful.reads_back a)
        (rw (unmap_idem a) (
          rw (bytes_eq_refl (lib.addr_text (unmap a)))
            (rw (family_eq_refl (unmap a)) (rw new refl))))

  normalize_addresses-valid :
      (seen : List Addr) (found : List (Option Addr))
      → IfSome
          (λ l. validate_addresses lib seen l ≡ ok tt)
          Unit
          (normalize_addresses lib seen found)
  unfolding normalize_addresses validate_addresses
  normalize_addresses-valid seen [] = refl
  normalize_addresses-valid seen (none ∷ as') = tt
  normalize_addresses-valid seen (some a ∷ as') = elim (Bool-cases (contains_addr (unmap a) seen)) [
    | inl old ↦ rw (normalize_addresses, old) (normalize_addresses-valid seen as')
    | inr new ↦ ground (
      arith,
      new,
      validate_address-new seen a new,
      normalize_addresses-valid (unmap a ∷ seen) as',
    )
  ]

  module _ (w : World) (sound : IsSound w) where
    module _ (hostname : Bytes) (trim : lib.trim_space hostname ≡ hostname) where
      result-valid :
          (outcome : Outcome) (e : Option Evidence) (f : Option Failure)
          → OutcomeFits outcome e f
          → failure_is (λ c. not (valid_failure_code c)) f ≡ false
          → validate_hostname lib (result_of lib w hostname outcome e f) ≡ ok tt
          → validate_resolution lib (result_of lib w hostname outcome e f) ≡ ok tt
      unfolding validate_resolution utc
      result-valid outcome e f fits known good =
          let r = result_of lib w hostname outcome e f in
          let valid : validate r ≡ ok tt = (validate_iff r).1 (record {
            schema = refl;
            probe = refl;
            time = (sound.time, refl);
            duration = clamp_duration-is_negative w.elapsed_ms;
            platform = sound.platform;
            backend = sound.backend;
            source = sound.source;
            outcome = fits;
          }) in
          ground (
            arith,
            valid,
            known,
            good,
            trim,
            bytes_eq_refl kind_system_resolution,
            bytes_eq_refl hostname,
          )

      -- On a valid hostname the checks of the outcome decide.
      good-valid :
          (outcome : Outcome) (e : Option Evidence) (f : Option Failure)
          → check_hostname lib hostname ≡ none
          → failure_is (bytes_eq failure_invalid_input) f ≡ false
          → check_outcome lib outcome e ≡ ok tt
          → validate_hostname lib (result_of lib w hostname outcome e f) ≡ ok tt
      unfolding validate_hostname validate_evidence
      good-valid outcome e f good other checked =
          rw (validate_hostname, ap (check_hostname lib) trim ∙ good)
            (rw (validate_evidence, other, checked) refl)

      failure-valid :
          (code detail : Bytes) (outcome : Outcome)
          → IsClassified (outcome, code)
          → check_hostname lib hostname ≡ none
          → validate_resolution lib (
              result_of lib w hostname outcome none
                (some (record { code = code; detail = detail })))
            ≡ ok tt
      unfolding check_outcome valid_failure_code bytes_eq
      failure-valid code detail Outcome.cancelled c good =
          let f : Option Failure = some (record { code = code; detail = detail }) in
          result-valid Outcome.cancelled none f c (rw c refl)
            (good-valid Outcome.cancelled none f good (rw c refl) refl)
      failure-valid code detail Outcome.failed (known, other, valid, filled) good =
          let f : Option Failure = some (record { code = code; detail = detail }) in
          result-valid Outcome.failed none f
            (filled, λ e. ground (arith, other, (bytes_eq_iff code failure_cancelled).1 e))
            (rw known refl) (good-valid Outcome.failed none f good valid refl)
      failure-valid code detail Outcome.succeeded c good = elim c [ ]
      failure-valid code detail (Outcome.unsupported _) c good = elim c [ ]

      invalid-valid :
          (detail : Bytes) (why : HostnameError)
          → check_hostname lib hostname ≡ some why
          → validate_resolution lib (
              result_of lib w hostname Outcome.failed none
                (some (record { code = failure_invalid_input; detail = detail })))
            ≡ ok tt
      unfolding validate_hostname valid_failure_code bytes_eq
      invalid-valid detail why bad =
          result-valid Outcome.failed none
            (some (record { code = failure_invalid_input; detail = detail })) (refl, λ e. cc e) refl
            (rw (validate_hostname, ap (check_hostname lib) trim ∙ bad) refl)

      fallback : IsClassified (Outcome.failed, failure_resolution_failure)
      unfolding valid_failure_code bytes_eq
      fallback = (refl, refl, refl, refl)

      addresses-valid :
          (addresses : List (Option Addr))
          → check_hostname lib hostname ≡ none
          → validate_resolution lib (with_addresses lib w hostname addresses) ≡ ok tt
      unfolding with_addresses check_outcome bytes_eq
      addresses-valid addresses good = elim (Option-cases (normalize_addresses lib [] addresses)) [
        | inl e ↦
            rw (with_addresses, e)
              (failure-valid failure_resolution_failure w.error_text Outcome.failed fallback good)
        | inr (l, e) ↦ elim (Bool-cases (is_empty l)) [
          | inl none_left ↦
              rw (with_addresses, e, none_left)
                (failure-valid failure_resolution_failure w.error_text Outcome.failed fallback good)
          | inr some_left ↦
              rw (with_addresses, e, some_left)
                (result-valid Outcome.succeeded (some (record { addresses = l })) none tt refl (
                  good-valid Outcome.succeeded (some (record { addresses = l })) none good refl
                    (rw some_left (rw e at (normalize_addresses-valid [] addresses)))))
        ]
      ]

      classified-valid :
          (e : LookupError)
          → check_hostname lib hostname ≡ none
          → validate_resolution lib (classified lib w hostname e) ≡ ok tt
      classified-valid e good =
          let r = classify_failure w.context_behind e in
          failure-valid r.1 e.text r.0 (classify_failure-IsClassified w.context_behind e) good

      in_context-valid :
          (addresses : List (Option Addr))
          → check_hostname lib hostname ≡ none
          → (ctx : ContextError)
          → validate_resolution lib (in_context lib w hostname addresses ctx) ≡ ok tt
      in_context-valid addresses good active = addresses-valid addresses good
      in_context-valid addresses good canceled =
          classified-valid (context_error canceled w.context_text) good
      in_context-valid addresses good deadline_exceeded =
          classified-valid (context_error deadline_exceeded w.context_text) good

      looked_up-valid :
          (l : Lookup)
          → check_hostname lib hostname ≡ none
          → validate_resolution lib (looked_up lib w hostname l) ≡ ok tt
      unfolding looked_up
      looked_up-valid (failed e) good = classified-valid e good
      looked_up-valid (found addresses) good = in_context-valid addresses good w.context_behind

    -- Whatever the lookup, the context and the hostname are, the result of `Resolve` passes `Validate`,
    -- where the clock never reads the zero time, the platform and the source are filled in, and the
    -- library trims what it trimmed to itself and reads back the addresses that it writes. The clock may
    -- read any zone, and may go back.
    pub resolve-valid : (value : Bytes) → validate_resolution lib (resolve lib w value) ≡ ok tt
    unfolding resolve bytes_eq
    resolve-valid value =
        let hostname = lib.trim_space value in
        let trim = lawful.trimmed value in
        elim (Option-cases (check_hostname lib hostname)) [
          | inl good ↦ rw (resolve, good) (looked_up-valid hostname trim (w.lookup hostname) good)
          | inr (why, bad) ↦ rw (resolve, bad) (invalid-valid hostname trim w.error_text why bad)
        ]
