-- ===== src/WebPath/Limits.antt =====
-- Observe returns, within the limits on hops and redirects.
use reachrun.Prelude.{
  subst, ℕ, ◌+◌, ◌-◌, ◌≤◌, max, Bool, true, false, Option, none, some, List, [], ◌∷◌, length,
  length-append, Bytes, codes, IfSome, ◌≡◌, refl, ap, inl, inr, Bool-cases, Option-cases, arith,
}
use mathlib.Core.Option
use reachrun.NetTarget.RequestTarget.{Url}
use reachrun.WebObservation.{HttpObservation}
use reachrun.WebPath.{
  Status, stopped, StopReason, all_candidates_failed, Input, Hop, Detail, Report, max_redirects,
}
use reachrun.WebPath.Candidates.{terminal_context}
use reachrun.WebPath.Hops.{World, ended}
use reachrun.WebPath.Chain.{ChainResult, hop_list, count_redirect, next_of_response, stop}
use reachrun.WebPath.Observe.{
  Clock, normalize_input, root_url, is_exhausted, end_chain, needs_fallback, after_chain,
  after_first, observe_url, observe,
}
use reachrun.WebPath.Checks.{hop_limit}
use reachrun.WebPath.Ends.{HopRun, no_hop, one_hop, by_cancel, by_timeout, by_bad_evidence}
use reachrun.WebPath.Follow.{
  Chain, halts, answers, follows, waiting, count_waiting, follow-parts, observe_chain-Chain,
}

length-hop_list : (hop : Option Hop) → length (hop_list hop) ≤ 1
length-hop_list none = ground arith
length-hop_list (some h) = ground arith

count_bound :
    (pending : Bool) (hop : Option Hop) (n : ℕ) → count_redirect pending hop n ≤ n + waiting pending
count_bound true none n = ground arith
count_bound true (some h) n = ground arith
count_bound false hop n = ground arith

module _ (w : World) where
  -- The hops of a chain, and its count of redirects.
  pub Chain-limits :
      {u : Url} {seen : List Bytes} {n : ℕ} {pending had : Bool} {c : ChainResult}
      → Chain w u seen n pending had c
      → (length c.hops ≤ max 1 (4 - (n + waiting pending)))
        × (c.redirects_followed ≤ max 3 (n + waiting pending))
  Chain-limits (halts {n = n} {pending = pending} {hop = hop} run) =
      ground (arith, length-hop_list hop, count_bound pending hop n)
  Chain-limits (answers {n = n} {pending = pending} {h = h} run e) =
      ground (arith, count_bound pending (some h) n)
  Chain-limits
        (follows {u = u} {next = next} {seen = seen} {n = n} {pending = pending} {h = h}
          {response = response} run e rest) =
      let below = (follow-parts w u next seen (count_redirect pending (some h) n) response e).1 in
      let count = count_waiting pending h n in let limits = Chain-limits rest in ground arith

  stop-responded :
      (u : Url) (seen : List Bytes) (n : ℕ) (response : HttpObservation) {status : Status}
      {reason : StopReason} {detail : Detail} {responded : Bool}
      → next_of_response w u seen n response ≡ stop status reason detail responded
      → responded ≡ true
  unfolding next_of_response
  stop-responded u seen n response e = ground arith

  Chain-had :
      {u : Url} {seen : List Bytes} {n : ℕ} {pending : Bool} {c : ChainResult}
      → Chain w u seen n pending true c
      → c.had_response ≡ true
  Chain-had (halts run) = refl
  Chain-had
        (answers {u = u} {seen = seen} {n = n} {pending = pending} {h = h} {response = response} run
          e) =
      stop-responded u seen (count_redirect pending (some h) n) response e
  Chain-had (follows run e rest) = Chain-had rest

  ended-hop :
      {u : Url} {hop : Option Hop} {status : Status} {reason : StopReason} {detail : Detail}
      → HopRun w u hop (ended status reason detail)
      → reason ≡ all_candidates_failed
      → (h : Hop) × (hop ≡ some h)
  ended-hop (no_hop by_cancel) e = cc e
  ended-hop (no_hop by_timeout) e = cc e
  ended-hop (no_hop by_bad_evidence) e = cc e
  ended-hop (one_hop r valid same t) e = (_, refl)

  -- A chain without a response that exhausted its candidates is one hop.
  pub Chain-exhausted :
      {u : Url} {seen : List Bytes} {n : ℕ} {c : ChainResult}
      → Chain w u seen n false false c
      → c.reason ≡ all_candidates_failed
      → c.had_response ≡ false
      → (h : Hop) × (c.hops ≡ h ∷ [])
        × (c.redirects_followed ≡ n)
        × HopRun w u (some h) (ended c.status c.reason c.detail)
  Chain-exhausted (halts {u = u} {hop = hop} {status = status} {reason = why} {detail = detail} run)
        reason had =
      let (h, e) = ended-hop run reason in
      (h, rw e refl, refl, subst (λ hop'. HopRun w u hop' (ended status why detail)) e run)
  Chain-exhausted (answers {u = u} {seen = seen} {n = n} {h = h} {response = response} run e) reason
        had =
      cc (stop-responded u seen n response e, had)
  Chain-exhausted (follows run e rest) reason had = cc (Chain-had rest, had)

abbrev pub WithinLimits : Report → Type 0
WithinLimits r =
    (length r.hops ≤ hop_limit r.http_fallback_used) × (r.redirects_followed ≤ max_redirects)

exhausted-reason :
    (status : Status) (reason : StopReason)
    → is_exhausted status reason ≡ true
    → (status ≡ stopped) × (reason ≡ all_candidates_failed)
exhausted-reason stopped all_candidates_failed e = (refl, refl)
exhausted-reason _ _ e = ground (arith, e)

module _ (w : World) (clock : Clock) where
  end_chain-limits :
      (input : Input) (fallback : Bool) (before : List Hop) (chain : ChainResult)
      → length before + length chain.hops ≤ hop_limit fallback
      → chain.redirects_followed ≤ max_redirects
      → WithinLimits (end_chain w clock input fallback before chain)
  unfolding end_chain
  end_chain-limits input fallback before chain few low =
      let total = length-append before chain.hops in
      elim (Option-cases (terminal_context (w.contexts (chain.time + 1)))) [
        | inl e ↦ rw (end_chain, e) (rw total few, low)
        | inr (final, e) ↦ rw (end_chain, e) (rw total few, low)
      ]

  -- The fallback follows a chain of one hop, without a redirect.
  pub needs_fallback-parts :
      (chain : ChainResult)
      → needs_fallback w clock chain ≡ true
      → (chain.reason ≡ all_candidates_failed) × (chain.had_response ≡ false)
  unfolding needs_fallback
  needs_fallback-parts chain e =
      (ground (arith, exhausted-reason chain.status chain.reason), ground arith)

  after_fallback-limits :
      (input : Input) (before : List Hop) (u : Url) (seen : List Bytes) (n : ℕ)
      (chain : Option ChainResult)
      → length before ≡ 1
      → n ≡ 0
      → IfSome (λ c. Chain w u seen n false false c) ⊥ chain
      → IfSome WithinLimits ⊥ (Option.map (end_chain w clock input true before) chain)
  after_fallback-limits input before u seen n none one none_followed bad = bad
  after_fallback-limits input before u seen n (some c) one none_followed run =
      end_chain-limits input true before c (ground (arith, Chain-limits w run))
        (ground (arith, Chain-limits w run))

  after_chain-limits :
      (input : Input) (hostname : Bytes) {u : Url} {seen : List Bytes} (c : ChainResult)
      → Chain w u seen 0 false false c
      → IfSome WithinLimits ⊥ (after_chain w clock input hostname c)
  unfolding after_chain
  after_chain-limits input hostname c run = elim (Bool-cases (needs_fallback w clock c)) [
    | inr e ↦
        rw (after_chain, e)
          (end_chain-limits input false [] c (ground (arith, Chain-limits w run))
            (ground (arith, Chain-limits w run)))
    | inl e ↦
        let parts = needs_fallback-parts c e in
        let (h, hops, none_followed, run') = Chain-exhausted w run parts.0 parts.1 in
        let root = root_url (codes "http") hostname in
        rw (after_chain, e)
          (after_fallback-limits input c.hops root (w.urls.text root ∷ []) c.redirects_followed _
            (ap length hops) none_followed
            (observe_chain-Chain w root c.redirects_followed (c.time + 1)))
  ]

  after_first-limits :
      (input : Input) (u : Url) (seen : List Bytes) (chain : Option ChainResult)
      → IfSome (λ c. Chain w u seen 0 false false c) ⊥ chain
      → IfSome WithinLimits ⊥ (after_first w clock input chain)
  after_first-limits input u seen none bad = bad
  after_first-limits input u seen (some c) run = after_chain-limits input input.hostname c run

  observe_url-limits :
      (input : Input) (initial : Option Url)
      → IfSome WithinLimits ⊥ (observe_url w clock input initial)
  unfolding observe_url
  observe_url-limits input none = (ground arith, ground arith)
  observe_url-limits input (some u) = elim (Option-cases (terminal_context (w.contexts 0))) [
    | inr (final, e) ↦ rw (observe_url, e) (ground arith, ground arith)
    | inl e ↦
        rw (observe_url, e)
          (after_first-limits input u (w.urls.text u ∷ []) _ (observe_chain-Chain w u 0 1))
  ]

  -- Whatever the resolver, the web observer and the contexts answer, `Observe` returns a report, the
  -- chains never run out of their fuel of four rounds, and the report has at most three redirects and
  -- four hops, or five with the plain HTTP fallback.
  pub observe-WithinLimits : (hostname : Bytes) → IfSome WithinLimits ⊥ (observe w clock hostname)
  unfolding observe
  observe-WithinLimits hostname =
      observe_url-limits (normalize_input w.net hostname).0 (normalize_input w.net hostname).1
