-- ===== src/WebPath/ChainAccepted.antt =====
-- The hops of a chain, their transitions, and the end of the chain pass the checks of a report.
use reachrun.Prelude.{
  ℕ, ◌+◌, ◌≤◌, Bool, true, false, Option, none, some, List, [], ◌∷◌, ◌++◌, append_assoc, Bytes,
  bytes_eq, bytes_eq_iff, ◌≡◌, refl, sym, subst, ◌⊎◌, inl, inr, arith, ok,
}
use reachrun.NetTarget.RequestTarget.{Url}
use reachrun.WebObservation.{Observation, HttpObservation}
use reachrun.WebPath
use reachrun.WebPath.{Status, StopReason, Detail, max_redirects}
use reachrun.WebPath.Redirect.{is_redirect_status, redirect_target}
use reachrun.WebPath.Hops.{World, hop_of, HopEnd, answered, ended}
use reachrun.WebPath.Chain.{ChainResult, hop_list, count_redirect, with_hop, stop, next_of_response}
use reachrun.WebPath.Checks.{validate_hops}
use reachrun.WebPath.Checks.Hop.{response_if_succeeded, last_attempt, successful_attempt}
use reachrun.WebPath.Checks.Transitions.{
  Parsed, check_transition, count_redirects, check_reason, last_hop,
}
use reachrun.WebPath.Ends.{
  Interrupted, HopRun, no_hop, one_hop, tried, LoopEnd, responded, Run-LoopEnd,
}
use reachrun.WebPath.Follow.{Chain, halts, answers, follows, waiting, count_waiting, follow-parts}
use reachrun.WebPath.WebUrl.{IsWebUrl, IsWebLibrary}
use reachrun.WebPath.Redirected.{redirect_target-IsWebUrl}
use reachrun.WebPath.HopAccepted.{observed_hop-valid}
use reachrun.WebPath.Explained.{
  IsEnd, Interrupted-IsEnd, Tried-Explains, Covers, Covers-next, next-explains, NextExplains,
}

count_none : (pending : Bool) (n : ℕ) → count_redirect pending none n ≡ n
count_none true n = refl
count_none false n = refl

response-of :
    {attempts : List Observation} {n : ℕ} {response : HttpObservation}
    → LoopEnd attempts n (answered response)
    → response_if_succeeded (last_attempt attempts) ≡ some response
response-of (responded e) = e

module _ (w : World) where
  -- The URL of the first hop, and the redirects that the hops show.
  abbrev pub Counted : Url → ℕ → Bool → List Parsed → ℕ → Type 0
  Counted u n pending [] followed = followed ≡ n
  Counted u n pending (p ∷ rest) followed =
      (p.1 ≡ u)
      × (p.0.url ≡ w.urls.text u)
      × ((k : ℕ) × (count_redirects w p rest ≡ ok k) × (followed ≡ n + waiting pending + k))

  -- What a chain leaves, behind the hops before it.
  pub record IsAccepted (u : Url) (n : ℕ) (pending : Bool) (before : List Parsed) (c : ChainResult)
      : Type 0 where
    pub parsed : List Parsed
    pub hops : validate_hops w w.platform c.hops ≡ ok parsed
    pub counts : Counted u n pending parsed c.redirects_followed
    pub is_end : IsEnd c.status c.reason c.detail
    pub explained :
        Interrupted c.status c.reason
        ⊎ ((p : Parsed) × (rest : List Parsed) × (parsed ≡ p ∷ rest)
            × (check_reason w c.reason c.redirects_followed (before ++ p ∷ rest) (last_hop p rest)
                ≡ ok tt))

  later-checked :
      (reason : StopReason) (followed : ℕ) (before : List Parsed) (hop p : Parsed)
      (later parsed : List Parsed)
      → parsed ≡ p ∷ later
      → check_reason w reason followed ((before ++ hop ∷ []) ++ p ∷ later) (last_hop p later)
        ≡ ok tt
      → check_reason w reason followed (before ++ hop ∷ parsed) (last_hop hop parsed) ≡ ok tt
  later-checked reason followed before hop p later parsed e checked =
      subst (λ l. check_reason w reason followed (before ++ hop ∷ l) (last_hop hop l) ≡ ok tt)
        (sym e)
        (subst (λ l. check_reason w reason followed l (last_hop p later) ≡ ok tt)
          (append_assoc before (hop ∷ []) (p ∷ later)) checked)

  module _ (lawful : IsWebLibrary w.net w.urls) where
    hop-parsed :
        {u : Url} {h : WebPath.Hop} {result : HopEnd}
        → IsWebUrl w.net w.urls u
        → HopRun w u (some h) result
        → validate_hops w w.platform (h ∷ []) ≡ ok ((h, u) ∷ [])
    unfolding validate_hops
    hop-parsed web run = rw (validate_hops, observed_hop-valid w lawful _ web _ _ run) refl

    hop-url :
        {u : Url} {h : WebPath.Hop} {result : HopEnd}
        → HopRun w u (some h) result
        → h.url ≡ w.urls.text u
    hop-url (one_hop r valid same t) = refl

    -- A hop that ends with a response has it behind its last attempt.
    hop-response :
        {u : Url} {h : WebPath.Hop} {response : HttpObservation}
        → HopRun w u (some h) (answered response)
        → successful_attempt h ≡ some response
    unfolding successful_attempt
    hop-response (one_hop r valid same (tried found some_left run)) =
        response-of (Run-LoopEnd w _ run)

    halted-IsAccepted :
        (u : Url) (n time : ℕ) (pending had : Bool) (before : List Parsed)
        (hop : Option WebPath.Hop) (status : Status) (reason : StopReason) (detail : Detail)
        → IsWebUrl w.net w.urls u
        → HopRun w u hop (ended status reason detail)
        → IsAccepted u n pending before (record {
          hops = hop_list hop;
          redirects_followed = count_redirect pending hop n;
          status = status;
          reason = reason;
          detail = detail;
          had_response = had;
          time = time;
        })
    unfolding validate_hops count_redirects
    halted-IsAccepted u n time pending had before _ status reason detail web (no_hop i) = record {
      parsed = [];
      hops = refl;
      counts = count_none pending n;
      is_end = Interrupted-IsEnd status reason detail i;
      explained = inl i;
    }
    halted-IsAccepted u n time pending had before _ status reason detail web
          (one_hop {attempts = attempts} r valid same t) =
        let hop = hop_of w u r attempts in
        let run : HopRun w u (some hop) (ended status reason detail) = one_hop r valid same t in
        let followed = count_redirect pending (some hop) n in
        let (is_end, why) =
          Tried-Explains w u r attempts status reason detail followed (before ++ (hop, u) ∷ []) t in
        record {
          parsed = (hop, u) ∷ [];
          hops = hop-parsed web run;
          counts = (refl, refl, (0, refl, ground (arith, count_waiting pending hop n)));
          is_end = is_end;
          explained = elim why [ inl i ↦ inl i | inr e ↦ inr ((hop, u), [], refl, e) ];
        }

    answered-IsAccepted :
        (u : Url) (seen : List Bytes) (n time : ℕ) (pending had : Bool) (before : List Parsed)
        (h : WebPath.Hop) (response : HttpObservation) (status : Status) (reason : StopReason)
        (detail : Detail)
        → IsWebUrl w.net w.urls u
        → n + waiting pending ≤ max_redirects
        → Covers w u seen before
        → HopRun w u (some h) (answered response)
        → next_of_response w u seen (count_redirect pending (some h) n) response
          ≡ stop status reason detail had
        → IsAccepted u n pending before (record {
          hops = h ∷ [];
          redirects_followed = count_redirect pending (some h) n;
          status = status;
          reason = reason;
          detail = detail;
          had_response = had;
          time = time;
        })
    unfolding count_redirects
    answered-IsAccepted u seen n time pending had before h response status reason detail web few
          covers run e =
        let followed = count_redirect pending (some h) n in
        let count = count_waiting pending h n in
        let (is_end, checked) = subst (NextExplains w u followed (before ++ (h, u) ∷ []) (h, u)) e (
          next-explains w lawful u seen followed response before h (hop-response run) (omega arith)
            covers) in
        record {
          parsed = (h, u) ∷ [];
          hops = hop-parsed web run;
          counts = (refl, hop-url run, (0, refl, ground (arith, count)));
          is_end = is_end;
          explained = inr ((h, u), [], refl, checked);
        }

    check_transition-ok :
        (u next : Url) (h : WebPath.Hop) (response : HttpObservation) (p : Parsed)
        → successful_attempt h ≡ some response
        → is_redirect_status response.status_code ≡ true
        → redirect_target w.net w.urls u response ≡ ok next
        → p.0.url ≡ w.urls.text next
        → check_transition w (h, u) p.0 ≡ ok tt
    unfolding check_transition
    check_transition-ok u next h response p success redirects target url =
        let same : bytes_eq (w.urls.text next) p.0.url ≡ true =
          (bytes_eq_iff (w.urls.text next) p.0.url).1 (sym url) in
        ground (arith, success, redirects, target, same)

    followed-counts :
        (u next : Url) (n k : ℕ) (pending : Bool) (h : WebPath.Hop) (response : HttpObservation)
        (parsed : List Parsed)
        → successful_attempt h ≡ some response
        → is_redirect_status response.status_code ≡ true
        → redirect_target w.net w.urls u response ≡ ok next
        → Counted next (n + waiting pending) true parsed k
        → (j : ℕ) × (count_redirects w (h, u) parsed ≡ ok j) × (k ≡ n + waiting pending + j)
    unfolding count_redirects
    followed-counts u next n k pending h response [] success redirects target counts =
        (0, refl, ground (arith, counts))
    followed-counts u next n k pending h response (p ∷ rest) success redirects target
          (same, url, (j, counted, sum)) =
        let passes = check_transition-ok u next h response p success redirects target url in
        (j + 1, rw (count_redirects, passes, counted) refl, ground (arith, sum))

    followed-IsAccepted :
        (u next : Url) (seen : List Bytes) (n : ℕ) (pending : Bool) (before : List Parsed)
        (h : WebPath.Hop) (response : HttpObservation) (c : ChainResult)
        → IsWebUrl w.net w.urls u
        → HopRun w u (some h) (answered response)
        → is_redirect_status response.status_code ≡ true
        → redirect_target w.net w.urls u response ≡ ok next
        → IsAccepted next (n + waiting pending) true (before ++ (h, u) ∷ []) c
        → IsAccepted u n pending before (with_hop w (some h) c)
    unfolding validate_hops
    followed-IsAccepted u next seen n pending before h response c web run redirects target rest =
        record {
          parsed = (h, u) ∷ rest.parsed;
          hops =
              rw
                (
                  validate_hops,
                  observed_hop-valid w lawful u web h (answered response) run,
                  rest.hops,
                )
                refl;
          counts = (
            refl,
            hop-url run,
            followed-counts u next n c.redirects_followed pending h response rest.parsed
                (hop-response run) redirects target rest.counts,
          );
          is_end = rest.is_end;
          explained = elim rest.explained [
            | inl i ↦ inl i
            | inr (p, later, e, checked) ↦ inr (
              (h, u),
              rest.parsed,
              refl,
              later-checked c.reason c.redirects_followed before (h, u) p later rest.parsed e
                  checked,
            )
          ];
        }

    pub Chain-IsAccepted :
        {u : Url} {seen : List Bytes} {n : ℕ} {pending had : Bool} {c : ChainResult}
        → Chain w u seen n pending had c
        → IsWebUrl w.net w.urls u
        → n + waiting pending ≤ max_redirects
        → (before : List Parsed) → Covers w u seen before
        → IsAccepted u n pending before c
    Chain-IsAccepted
          (halts {u = u} {n = n} {time = time} {pending = pending} {had = had} {hop = hop}
            {status = status} {reason = reason} {detail = detail} run)
          web few before covers =
        halted-IsAccepted u n time pending had before hop status reason detail web run
    Chain-IsAccepted
          (answers {u = u} {seen = seen} {n = n} {time = time} {pending = pending}
            {responded = had'} {h = h} {response = response} {status = status} {reason = reason}
            {detail = detail} run e)
          web few before covers =
        answered-IsAccepted u seen n time pending had' before h response status reason detail web
          few covers run e
    Chain-IsAccepted
          (follows {u = u} {next = next} {seen = seen} {n = n} {pending = pending} {h = h}
            {response = response} {c = c} run e rest)
          web few before covers =
        let n' = count_redirect pending (some h) n in
        let count = count_waiting pending h n in
        let (redirects, below, target, new) = follow-parts w u next seen n' response e in
        let behind =
          Chain-IsAccepted rest
            (redirect_target-IsWebUrl w.net w.urls lawful u next response target) (omega arith)
            (before ++ (h, u) ∷ []) (Covers-next w u next seen before h covers) in
        followed-IsAccepted u next seen n pending before h response c web run redirects target
          (subst (λ m. IsAccepted next m true (before ++ (h, u) ∷ []) c) count behind)
