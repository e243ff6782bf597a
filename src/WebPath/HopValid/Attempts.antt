-- ===== src/WebPath/HopValid/Attempts.antt =====
-- The loop of observeHop over the candidates, and the loop of validateHop over the attempts.
use reachrun.Prelude.{
  true, false, some, List, [], ◌∷◌, ltb, Bytes, bytes_eq_iff, bytes_eq_refl, ◌≡◌, refl, sym, ap,
  ◌∙◌, subst, arith, ok,
}
use reachrun.Probe.{Outcome}
use reachrun.NetTarget.Address.{Addr, unmap, IsNetLibrary}
use reachrun.NetTarget.PublicIp.{normalize_public_ip}
use reachrun.NetTarget.RequestTarget.{Url}
use reachrun.SystemResolver
use reachrun.SystemResolver.{Address}
use reachrun.SystemResolver.Checks.{contains_addr}
use reachrun.WebObservation.{Family, Observation, family_eq}
use reachrun.WebObservation.Normalize
use reachrun.WebObservation.Valid.{observation-family}
use reachrun.WebPath.{candidate_limit_per_family}
use reachrun.WebPath.Hops.{World, HopEnd, ok_of_is_ok, is_valid_observation, is_requested}
use reachrun.WebPath.Checks.Hop.{
  Seen, count_family, terminal_position, has_error, dialled, validate_request, validate_address,
  validate_attempts,
}
use reachrun.WebPath.Ends.{Run, broken, last, next}

family-eq : (a b : Family) → family_eq a b ≡ true → a ≡ b
unfolding family_eq
family-eq (Family.unsupported s) (Family.unsupported t) h = ground (arith, bytes_eq_iff s t)
family-eq _ _ h = ground arith

pub resolver_family-eq : (a b : SystemResolver.Family) → SystemResolver.family_eq a b ≡ true → a ≡ b
unfolding SystemResolver.family_eq
resolver_family-eq (SystemResolver.Family.unsupported s) (SystemResolver.Family.unsupported t) h =
    ground (arith, bytes_eq_iff s t)
resolver_family-eq _ _ h = ground arith

terminal-last : (o : Outcome) → terminal_position o [] ≡ ok tt
terminal-last o = ground arith

module _ (w : World) (lawful : IsNetLibrary w.net) (u : Url) (resolved : List Addr) where
  requested-parts :
      (candidate : Bytes) (r : Observation)
      → is_requested w u candidate r ≡ true
      → (r.input.dial_ip ≡ candidate)
        × (is_valid_observation w r ≡ true → validate_request w w.platform u r ≡ ok tt)
  unfolding is_requested validate_request
  requested-parts candidate r same = (
    ground (arith, same, bytes_eq_iff r.input.dial_ip candidate),
    λ valid. ground (arith, same, valid),
  )

  -- The family of an observation is that of the candidate.
  observed_family :
      (candidate : Bytes) (r : Observation)
      → is_valid_observation w r ≡ true
      → r.input.dial_ip ≡ candidate
      → r.input.family ≡ Normalize.family_of (normalize_public_ip w.net candidate).ip
  observed_family candidate r valid same =
      let e = observation-family w.net w.urls w.evidence r (ok_of_is_ok valid) in
      sym (family-eq _ _ e) ∙ ap (λ t. Normalize.family_of (normalize_public_ip w.net t).ip) same

  module _ (a : Addr) (candidate : Bytes) (seen : Seen) where
    -- What the checks ask of a candidate.
    pub record IsFresh : Type 0 where
      pub parses : w.net.parse_addr candidate ≡ some a
      pub unmapped : unmap a ≡ a
      pub listed : contains_addr a resolved ≡ true
      pub public : has_error (normalize_public_ip w.net (w.net.addr_text a)).error ≡ false
      pub new : contains_addr a seen.attempted ≡ false
      pub few :
          ltb candidate_limit_per_family (
            count_family
              (Normalize.family_of (some a))
              (Normalize.family_of (some a) ∷ seen.families))
          ≡ false
      pub family : (normalize_public_ip w.net candidate).ip ≡ some a

    dialled-ok : IsFresh → dialled w candidate ≡ ok a
    dialled-ok fresh = rw (dialled, fresh.parses, fresh.unmapped) refl

    validate_address-ok :
        IsFresh
        → validate_address w resolved candidate seen candidate (Normalize.family_of (some a)) a
          ≡ ok tt
    unfolding validate_address
    validate_address-ok fresh =
        rw
          (
            validate_address,
            bytes_eq_refl candidate,
            fresh.listed,
            fresh.public,
            fresh.new,
            fresh.few,
          )
          refl

    fresh_family :
        IsFresh
        → (r : Observation) → is_valid_observation w r ≡ true
        → r.input.dial_ip ≡ candidate
        → r.input.family ≡ Normalize.family_of (some a)
    fresh_family fresh r valid same =
        observed_family candidate r valid same ∙ ap Normalize.family_of fresh.family

    -- One attempt passes, if those behind it do.
    passes :
        IsFresh
        → (r : Observation) → is_valid_observation w r ≡ true
        → is_requested w u candidate r ≡ true
        → (rest : List Bytes) (attempts : List Observation)
        → terminal_position r.outcome attempts ≡ ok tt
        → validate_attempts w w.platform u resolved rest
            (record {
              attempted = a ∷ seen.attempted;
              families = Normalize.family_of (some a) ∷ seen.families;
            })
            attempts
          ≡ ok tt
        → validate_attempts w w.platform u resolved (candidate ∷ rest) seen (r ∷ attempts) ≡ ok tt
    unfolding validate_attempts
    passes fresh r valid same rest attempts terminal behind =
        let (dial, request) = requested-parts candidate r same in
        let family = fresh_family fresh r valid dial in
        let dials = ap (dialled w) dial ∙ dialled-ok fresh in
        let checks : validate_address w resolved candidate seen r.input.dial_ip r.input.family a
            ≡ ok tt =
          ap (λ t. validate_address w resolved candidate seen t r.input.family a) dial
          ∙ ap (λ f. validate_address w resolved candidate seen candidate f a) family
          ∙ validate_address-ok fresh in
        let later =
          subst
            (λ f.
              validate_attempts w w.platform u resolved rest
                (record { attempted = a ∷ seen.attempted; families = f ∷ seen.families }) attempts
              ≡ ok tt)
            (sym family) behind in
        rw (validate_attempts, request valid, dials, checks, terminal) later

    pub attempt-valid :
        IsFresh
        → (rest : List Bytes) (attempts : List Observation) (result : HopEnd)
        → ((later : List Observation)
            → Run w u rest later result
            → validate_attempts w w.platform u resolved rest
                (record {
                  attempted = a ∷ seen.attempted;
                  families = Normalize.family_of (some a) ∷ seen.families;
                })
                later
              ≡ ok tt)
        → Run w u (candidate ∷ rest) attempts result
        → validate_attempts w w.platform u resolved (candidate ∷ rest) seen attempts ≡ ok tt
    unfolding validate_attempts
    attempt-valid fresh rest _ _ behind broken = refl
    attempt-valid fresh rest _ _ behind (last r valid same fits) =
        passes fresh r valid same rest [] (terminal-last r.outcome) refl
    attempt-valid fresh rest _ _ behind (next {attempts = attempts} r valid same fits run) =
        passes fresh r valid same rest attempts (rw (fits.0, fits.1) refl) (behind attempts run)
