-- ===== src/WebPath/HopAccepted.antt =====
-- A hop that observeHop makes passes validateHop.
use reachrun.Prelude.{
  ℕ, true, false, not, ◌&&◌, Option, none, some, List, [], ◌∷◌, bytes_eq_refl, is_empty, IfSome,
  ◌≡◌, refl, sym, ap, subst, inl, inr, Option-cases, arith, ok,
}
use reachrun.Probe.{Outcome, Failure}
use reachrun.Probe.Checked.{OutcomeFits}
use reachrun.NetTarget.Address.{Addr, unmap, addr_eq_refl}
use reachrun.NetTarget.Accepted.{IsWebText, check_web_hostname-IsWebText}
use reachrun.NetTarget.Hostname.{normalize_web_hostname}
use reachrun.NetTarget.RequestTarget.{Url}
use reachrun.SystemResolver
use reachrun.SystemResolver.{Address, Resolution}
use reachrun.SystemResolver.Checks.{contains_addr}
use reachrun.SystemResolver.Accepted.{resolution-OutcomeFits, resolution-validate_addresses}
use reachrun.WebObservation.{Observation}
use reachrun.WebPath.{Hop}
use reachrun.WebPath.Candidates.{no_counts, select_public_candidates}
use reachrun.WebPath.Hops.{
  World, HopEnd, ok_of_is_ok, host_of, hop_of, is_valid_resolution, is_resolution_of, observe_hop,
}
use reachrun.WebPath.Checks.Hop.{
  succeeded, candidates_of, address_set, parsed_addresses, valid_hostname, validate_url,
  validate_hop_resolution, validate_attempts, validate_hop,
}
use reachrun.WebPath.Ends.{
  Run, Tried, stopped_before, unresolved, no_public, tried, HopRun, one_hop, observe_hop-HopRun,
}
use reachrun.WebPath.Redirected.{prefix-filled}
use reachrun.WebPath.WebUrl.{IsWebUrl, IsWebLibrary, accepted-kept}
use reachrun.WebPath.HopValid.{AllListed, attempts-valid}

is-succeeded : (o : Outcome) → succeeded o ≡ true → o ≡ Outcome.succeeded
is-succeeded Outcome.succeeded h = refl
is-succeeded Outcome.failed h = cc h
is-succeeded Outcome.cancelled h = cc h
is-succeeded (Outcome.unsupported _) h = cc h

succeeded-evidence :
    (e : Option SystemResolver.Evidence) (f : Option Failure)
    → OutcomeFits Outcome.succeeded e f
    → (found : SystemResolver.Evidence) × (e ≡ some found)
succeeded-evidence (some e) none fits = (e, refl)
succeeded-evidence (some e) (some _) fits = elim fits [ ]
succeeded-evidence none none fits = elim fits [ ]
succeeded-evidence none (some _) fits = elim fits [ ]

no_attempts : (o : Outcome) → not (succeeded o) && not true ≡ false
no_attempts o = ground arith

module _ (w : World) where
  parsed_addresses-AllListed :
      (resolved : List Addr) (addresses : List Address)
      → ((b : Addr)
          → contains_addr b (parsed_addresses w addresses) ≡ true
          → contains_addr b resolved ≡ true)
      → AllListed w.net resolved addresses
  unfolding contains_addr
  parsed_addresses-AllListed resolved [] sub = tt
  parsed_addresses-AllListed resolved (address ∷ rest) sub = (
    λ a reads. sub (unmap a) (rw (parsed_addresses, reads, addr_eq_refl (unmap a)) refl),
    parsed_addresses-AllListed resolved rest (λ b h.
        sub b (elim (Option-cases (w.net.parse_addr address.ip)) [
          | inl e ↦ rw (parsed_addresses, e) h
          | inr (a, e) ↦ rw (parsed_addresses, e, h) (ground arith)
        ])),
  )

module _ (w : World) (lawful : IsWebLibrary w.net w.urls) (u : Url)
    (web : IsWebUrl w.net w.urls u) where
  host-plain : IsWebText u.host
  host-plain = check_web_hostname-IsWebText w.net u.host web.host

  host_of-same : host_of w u ≡ u.host
  host_of-same = (lawful.plain_host u.host host-plain).0

  hostname-valid : valid_hostname (normalize_web_hostname w.net (host_of w u)) (host_of w u) ≡ true
  hostname-valid =
      rw (host_of-same, accepted-kept w.net w.urls lawful u.host web.host) (bytes_eq_refl u.host)

  validate_url-ok : validate_url w (w.urls.text u) u ≡ ok tt
  unfolding validate_url
  validate_url-ok =
      let text = bytes_eq_refl (w.urls.text u) in
      let fragment = ap is_empty web.no_fragment in
      let opaque = ap is_empty web.no_opaque in
      let port = ap is_empty (lawful.plain_host u.host host-plain).1 in
      let path = prefix-filled _ (lawful.escaped_again u.path u.raw_path web.path) in
      ground (arith, text, fragment, opaque, port, path, web.no_user, web.scheme, hostname-valid)

  module _ (r : Resolution) (valid : is_valid_resolution w r ≡ true)
      (same : is_resolution_of w u r ≡ true) where
    Tried-attempts :
        (attempts : List Observation) (result : HopEnd)
        → Tried w u r attempts result
        → (not (succeeded r.outcome) && not (is_empty attempts) ≡ false)
          × (validate_attempts w w.platform u
                (address_set w r)
                (candidates_of w r)
                (record { attempted = []; families = [] })
                attempts
              ≡ ok tt)
    unfolding validate_attempts candidates_of
    Tried-attempts attempts result (stopped_before i) = (no_attempts r.outcome, refl)
    Tried-attempts attempts result (unresolved f) = (no_attempts r.outcome, refl)
    Tried-attempts attempts result (no_public f e) = (no_attempts r.outcome, refl)
    Tried-attempts attempts result (tried found some_left run) =
        let outcome = is-succeeded r.outcome found in
        let fits = resolution-OutcomeFits w.net r (ok_of_is_ok valid) in
        let (e, present) =
          succeeded-evidence r.evidence r.failure
            (subst (λ o. OutcomeFits o r.evidence r.failure) outcome fits) in
        let addresses = e.addresses in
        let checked = resolution-validate_addresses w.net r (ok_of_is_ok valid) outcome e present in
        let candidates : candidates_of w r ≡ select_public_candidates w.net addresses =
          rw (candidates_of, found, present) refl in
        let resolved : address_set w r ≡ parsed_addresses w addresses =
          rw (address_set, found, present) refl in
        (
          rw found refl,
          subst
              (λ c.
                validate_attempts w w.platform u (address_set w r) c
                  (record { attempted = []; families = [] }) attempts
                ≡ ok tt)
              (sym candidates)
              (subst
                (λ a.
                  validate_attempts w w.platform u a (select_public_candidates w.net addresses)
                    (record { attempted = []; families = [] }) attempts
                  ≡ ok tt)
                (sym resolved)
                (attempts-valid w lawful.net u (parsed_addresses w addresses) addresses no_counts
                  (record { attempted = []; families = [] }) [] attempts result checked (λ b h. h)
                  (record { ipv4 = refl; ipv6 = refl })
                  (parsed_addresses-AllListed w (parsed_addresses w addresses) addresses (λ b h. h))
                  (subst (λ c. Run w u c attempts result) candidates run))),
        )

    validate_hop_resolution-ok :
        (attempts : List Observation) (result : HopEnd)
        → Tried w u r attempts result
        → validate_hop_resolution w w.platform u (hop_of w u r attempts) ≡ ok tt
    unfolding validate_hop_resolution
    validate_hop_resolution-ok attempts result t =
        let resolved = (Tried-attempts attempts result t).0 in ground (arith, valid, same, resolved)

  -- The hop of a run passes, and the check reads back its URL.
  pub observed_hop-valid :
      (h : Hop) (result : HopEnd) → HopRun w u (some h) result → validate_hop w w.platform h ≡ ok u
  unfolding validate_hop
  observed_hop-valid _ result (one_hop {attempts = attempts} r valid same t) =
      rw
        (
          validate_hop,
          lawful.reads_text u web,
          validate_url-ok,
          validate_hop_resolution-ok r valid same attempts result t,
          (Tried-attempts r valid same attempts result t).1,
        )
        refl

  hop_of_run-valid :
      (hop : Option Hop) (result : HopEnd)
      → HopRun w u hop result
      → IfSome (λ h. validate_hop w w.platform h ≡ ok u) Unit hop
  hop_of_run-valid none result run = tt
  hop_of_run-valid (some h) result run = observed_hop-valid h result run

  -- With net/netip and net/url as `IsWebLibrary` states, the hop that `observeHop` makes of a web URL,
  -- if it makes one, passes `validateHop`, whatever the resolver, the web observer and the contexts
  -- answer, and the check reads back that URL.
  pub observe_hop-valid :
      (time : ℕ) → IfSome (λ h. validate_hop w w.platform h ≡ ok u) Unit (observe_hop w u time).hop
  observe_hop-valid time =
      hop_of_run-valid (observe_hop w u time).hop (observe_hop w u time).result
        (observe_hop-HopRun w u time)
