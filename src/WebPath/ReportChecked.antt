-- ===== src/WebPath/ReportChecked.antt =====
-- The checks of a report, as one record, and what Validate makes of it.
use reachrun.Prelude.{
  ℕ, ◌+◌, ◌≤◌, Bool, true, false, not, ◌&&◌, some, List, [], ◌∷◌, ◌++◌, ltb, ◌==◌, ==_refl, Bytes,
  bytes_eq, bytes_eq_refl, is_empty, length, ◌≡◌, refl, sym, subst, ◌⊎◌, inl, inr, Bool-cases,
  Option-cases, arith, ok,
}
use reachrun.Probe.{utc, clamp_duration-is_negative}
use reachrun.NetTarget.Hostname.{check_web_hostname}
use reachrun.NetTarget.RequestTarget.{Url}
use reachrun.WebPath
use reachrun.WebPath.{
  Status, stopped, StopReason, all_candidates_failed, Detail, plain, context_done, Input, Report,
  max_redirects,
}
use reachrun.WebPath.Candidates.{terminal_context}
use reachrun.WebPath.Hops.{World, ended, hop_of}
use reachrun.WebPath.Chain.{ChainResult}
use reachrun.WebPath.Observe.{Clock, input_of, finish, end_chain}
use reachrun.WebPath.Checks.{
  input_eq, hop_limit, first_url, validate_hops, starts_exhausted, fallback_missing, validate_path,
  validate_report,
}
use reachrun.WebPath.Checks.Hop.{exhausted_public_candidates}
use reachrun.WebPath.Checks.Transitions.{
  Parsed, count_transitions, check_reason, last_hop, is_interrupted, validate_terminal_evidence,
}
use reachrun.WebPath.Ends.{
  Interrupted, by_cancel, by_timeout, by_bad_evidence, HopRun, one_hop,
  terminal_context-Interrupted,
}
use reachrun.WebPath.WebUrl.{IsWebLibrary, accepted-kept}
use reachrun.WebPath.Explained.{IsEnd, Interrupted-IsEnd, Tried-Explains}

-- A clock that does not read the zero time, and a platform that is filled in.
pub record IsReporter (w : World) (clock : Clock) : Type 0 where
  pub time : clock.finished_at.is_zero ≡ false
  pub platform : (is_empty w.platform.os ≡ false) × (is_empty w.platform.arch ≡ false)

pub Interrupted-is_interrupted :
    (status : Status) (reason : StopReason)
    → Interrupted status reason
    → is_interrupted status reason ≡ true
Interrupted-is_interrupted _ _ by_cancel = refl
Interrupted-is_interrupted _ _ by_timeout = refl
Interrupted-is_interrupted _ _ by_bad_evidence = refl

-- The hops that were parsed, in their order.
abbrev pub Heads : List WebPath.Hop → List Parsed → Type 0
Heads [] [] = Unit
Heads (h ∷ _) (p ∷ _) = p.0 ≡ h
Heads _ _ = ⊥

pub parsed-Heads :
    (w : World) (hops : List WebPath.Hop) (parsed : List Parsed)
    → validate_hops w w.platform hops ≡ ok parsed
    → Heads hops parsed
unfolding validate_hops
parsed-Heads w [] [] h = tt
parsed-Heads w [] (p ∷ parsed) h = ground (arith, h)
parsed-Heads w (hop ∷ rest) [] h = ground (arith, h)
parsed-Heads w (hop ∷ rest) (p ∷ parsed) h = ground (arith, h)

failed_not-Interrupted :
    (status : Status) (reason : StopReason)
    → Interrupted status reason
    → reason ≡ all_candidates_failed
    → ⊥
failed_not-Interrupted _ _ by_cancel e = cc e
failed_not-Interrupted _ _ by_timeout e = cc e
failed_not-Interrupted _ _ by_bad_evidence e = cc e

-- A hop whose candidates all failed has the evidence of it.
pub exhausted-hop :
    (w : World) (u : Url) (h : WebPath.Hop) (status : Status) (reason : StopReason)
    (detail : Detail)
    → HopRun w u (some h) (ended status reason detail)
    → reason ≡ all_candidates_failed
    → (exhausted_public_candidates w h ≡ true) × (h.url ≡ w.urls.text u)
unfolding check_reason
exhausted-hop w u _ status reason detail (one_hop {attempts = attempts} r valid same t) e =
    elim (Tried-Explains w u r attempts status reason detail 0 [] t).1 [
      | inl i ↦ elim (failed_not-Interrupted status reason i e) [ ]
      | inr checked ↦
          let failed : check_reason w all_candidates_failed 0 [] (hop_of w u r attempts, u)
              ≡ ok tt =
            subst (λ x. check_reason w x 0 [] (hop_of w u r attempts, u) ≡ ok tt) e checked in
          (ground (arith, failed), refl)
    ]

module _ (w : World) (host : Bytes) where
  -- What the checks of a report for this host ask.
  pub record IsChecked (status : Status) (reason : StopReason) (detail : Detail) (followed : ℕ)
      (fallback : Bool) (hops : List WebPath.Hop) : Type 0 where
    pub is_end : IsEnd status reason detail
    pub few : followed ≤ max_redirects
    pub short : length hops ≤ hop_limit fallback
    pub first : first_url (input_of host).initial_url hops ≡ true
    pub parsed : List Parsed
    pub hops_valid : validate_hops w w.platform hops ≡ ok parsed
    pub exhausted : fallback && not (starts_exhausted w hops) ≡ false
    pub counted : count_transitions w fallback host parsed ≡ ok followed
    pub fallback_seen : fallback_missing fallback (length hops) status reason ≡ false
    pub explained :
        (is_interrupted status reason ≡ true)
        ⊎ ((p : Parsed) × (rest : List Parsed) × (parsed ≡ p ∷ rest)
            × (check_reason w reason followed (p ∷ rest) (last_hop p rest) ≡ ok tt))

  IsChecked-cut :
      (status status' : Status) (reason reason' : StopReason) (detail : Detail) (followed : ℕ)
      (fallback : Bool) (hops : List WebPath.Hop)
      → IsChecked status reason detail followed fallback hops
      → Interrupted status' reason'
      → IsChecked status' reason' context_done followed fallback hops
  IsChecked-cut status status' reason reason' detail followed fallback hops is i =
      let cut = Interrupted-is_interrupted status' reason' i in
      record {
        is_end = Interrupted-IsEnd status' reason' context_done i;
        few = is.few;
        short = is.short;
        first = is.first;
        parsed = is.parsed;
        hops_valid = is.hops_valid;
        exhausted = is.exhausted;
        counted = is.counted;
        fallback_seen = ground (arith, cut);
        explained = inl cut;
      }

module _ (w : World) (clock : Clock) (lawful : IsWebLibrary w.net w.urls)
    (reporter : IsReporter w clock) where
  module _ (host : Bytes) (accepted : check_web_hostname w.net host ≡ ok tt) where
    module _ {status : Status} {reason : StopReason} {detail : Detail} {followed : ℕ}
        {fallback : Bool} {hops : List WebPath.Hop}
        (is : IsChecked w host status reason detail followed fallback hops) where
      abbrev report : Report
      report = finish w clock (input_of host) status reason detail followed fallback hops

      terminal-ok : validate_terminal_evidence w report is.parsed ≡ ok tt
      unfolding validate_terminal_evidence
      terminal-ok = elim (Bool-cases (is_interrupted status reason)) [
        | inl cut ↦ rw (validate_terminal_evidence, cut) refl
        | inr whole ↦ elim is.explained [
          | inl cut ↦ cc (whole, cut)
          | inr (p, rest, e, checked) ↦
              subst (λ l. validate_terminal_evidence w report l ≡ ok tt) (sym e)
                (rw (validate_terminal_evidence, whole) checked)
        ]
      ]

      validate_path-ok : validate_path w report ≡ ok tt
      unfolding validate_path
      validate_path-ok =
          let short : ltb (hop_limit fallback) (length hops) ≡ false = ground (arith, is.short) in
          let same : (followed == followed) ≡ true = ==_refl followed in
          rw
            (
              validate_path, is.is_end.valid, is.is_end.pair, is.is_end.silent, short, is.first,
              is.hops_valid, is.exhausted, is.counted, same, is.fallback_seen,
            )
            terminal-ok

      pub validate_report-ok : validate_report w report ≡ ok tt
      unfolding utc validate_report input_eq bytes_eq validate_path
      validate_report-ok =
          let few : ltb max_redirects followed ≡ false = ground (arith, is.few) in
          let kept = accepted-kept w.net w.urls lawful host accepted in
          rw
            (
              validate_report,
              reporter.time,
              clamp_duration-is_negative clock.elapsed_ms,
              reporter.platform.0,
              reporter.platform.1,
              few,
              kept,
              bytes_eq_refl host,
              bytes_eq_refl (input_of host).initial_url,
            )
            validate_path-ok

    pub end_chain-valid :
        (fallback : Bool) (before : List WebPath.Hop) (c : ChainResult)
        → IsChecked w host c.status c.reason c.detail c.redirects_followed fallback
            (before ++ c.hops)
        → validate_report w (end_chain w clock (input_of host) fallback before c) ≡ ok tt
    unfolding end_chain
    end_chain-valid fallback before c is =
        elim (Option-cases (terminal_context (w.contexts (c.time + 1)))) [
          | inl e ↦ rw (end_chain, e) (validate_report-ok is)
          | inr ((status, reason), e) ↦
              rw (end_chain, e)
                (validate_report-ok (
                  IsChecked-cut w host c.status status c.reason reason c.detail c.redirects_followed
                    fallback (before ++ c.hops) is
                    (rw e at (terminal_context-Interrupted (w.contexts (c.time + 1))))))
        ]
