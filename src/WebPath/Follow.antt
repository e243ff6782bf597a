-- ===== src/WebPath/Follow.antt =====
-- A chain of redirects as a relation, and that the loop ends with one.
use reachrun.Prelude.{
  ℕ, zero, suc, ◌+◌, ◌≤◌, ◌<◌, Bool, true, false, Option, none, some, List, [], ◌∷◌, Bytes, IfSome,
  ◌≡◌, ◌≢◌, refl, subst, ◌⊎◌, inl, inr, arith, ok,
}
use mathlib.Core.Option
use reachrun.NetTarget.RequestTarget.{Url}
use reachrun.WebObservation.{HttpObservation}
use reachrun.WebPath.{Status, StopReason, Hop, Detail, max_redirects}
use reachrun.WebPath.Redirect.{is_redirect_status, redirect_target}
use reachrun.WebPath.Hops.{World, HopEnd, answered, ended, panicked, observe_hop}
use reachrun.WebPath.Chain.{
  ChainResult, hop_list, count_redirect, contains_text, Next, stop, follow, panic, next_of_response,
  with_hop, run_chain, observe_chain,
}
use reachrun.WebPath.Ends.{HopRun, HopRun-ended, observe_hop-HopRun}

HopEnd-cases :
    (result : HopEnd)
    → ((status : Status) × (reason : StopReason) × (detail : Detail) × (result
          ≡ ended status reason detail))
      ⊎ (((response : HttpObservation) × (result ≡ answered response)) ⊎ (result ≡ panicked))
HopEnd-cases (ended status reason detail) = inl (status, reason, detail, refl)
HopEnd-cases (answered response) = inr (inl (response, refl))
HopEnd-cases panicked = inr (inr refl)

Next-cases :
    (n : Next)
    → ((status : Status) × (reason : StopReason) × (detail : Detail) × (had : Bool) × (n
          ≡ stop status reason detail had))
      ⊎ (((next : Url) × (n ≡ follow next)) ⊎ (n ≡ panic))
Next-cases (stop status reason detail had) = inl (status, reason, detail, had, refl)
Next-cases (follow next) = inr (inl (next, refl))
Next-cases panic = inr (inr refl)

-- A redirect that has no hop yet.
abbrev pub waiting : Bool → ℕ
waiting true = 1
waiting false = 0

pub count_waiting :
    (pending : Bool) (h : Hop) (n : ℕ) → count_redirect pending (some h) n ≡ n + waiting pending
count_waiting true h n = refl
count_waiting false h n = ground arith

module _ (w : World) where
  -- Each round of the loop is a hop; the relation forgets the time.
  pub data Chain : Url → List Bytes → ℕ → Bool → Bool → ChainResult → Type 0 where
    halts :
        {u : Url} {seen : List Bytes} {n time : ℕ} {pending had : Bool} {hop : Option Hop}
        {status : Status} {reason : StopReason} {detail : Detail}
        → HopRun w u hop (ended status reason detail)
        → Chain u seen n pending had (record {
          hops = hop_list hop;
          redirects_followed = count_redirect pending hop n;
          status = status;
          reason = reason;
          detail = detail;
          had_response = had;
          time = time;
        })
    answers :
        {u : Url} {seen : List Bytes} {n time : ℕ} {pending had responded : Bool} {h : Hop}
        {response : HttpObservation} {status : Status} {reason : StopReason} {detail : Detail}
        → HopRun w u (some h) (answered response)
        → next_of_response w u seen (count_redirect pending (some h) n) response
          ≡ stop status reason detail responded
        → Chain u seen n pending had (record {
          hops = h ∷ [];
          redirects_followed = count_redirect pending (some h) n;
          status = status;
          reason = reason;
          detail = detail;
          had_response = responded;
          time = time;
        })
    follows :
        {u next : Url} {seen : List Bytes} {n : ℕ} {pending had : Bool} {h : Hop}
        {response : HttpObservation} {c : ChainResult}
        → HopRun w u (some h) (answered response)
        → next_of_response w u seen (count_redirect pending (some h) n) response ≡ follow next
        → Chain next (w.urls.text next ∷ seen) (count_redirect pending (some h) n) true true c
        → Chain u seen n pending had (with_hop w (some h) c)

  -- A redirect is followed below the limit, to a URL that was not seen.
  pub follow-parts :
      (u next : Url) (seen : List Bytes) (n : ℕ) (response : HttpObservation)
      → next_of_response w u seen n response ≡ follow next
      → (is_redirect_status response.status_code ≡ true)
        × (n < max_redirects)
        × (redirect_target w.net w.urls u response ≡ ok next)
        × (contains_text (w.urls.text next) seen ≡ false)
  unfolding next_of_response
  follow-parts u next seen n response h = ground arith

  module _ (u : Url) (seen : List Bytes) (n : ℕ) (pending had : Bool) where
    answers_any :
        (hop : Option Hop) (response : HttpObservation)
        → HopRun w u hop (answered response)
        → (status : Status) (reason : StopReason) (detail : Detail) (responded : Bool) (time : ℕ)
        → next_of_response w u seen (count_redirect pending hop n) response
          ≡ stop status reason detail responded
        → Chain u seen n pending had (record {
          hops = hop_list hop;
          redirects_followed = count_redirect pending hop n;
          status = status;
          reason = reason;
          detail = detail;
          had_response = responded;
          time = time;
        })
    answers_any _ response (HopRun.one_hop r valid same t) status reason detail responded time e =
        answers (HopRun.one_hop r valid same t) e

    follows_any :
        (hop : Option Hop) (response : HttpObservation)
        → HopRun w u hop (answered response)
        → (next : Url)
        → next_of_response w u seen (count_redirect pending hop n) response ≡ follow next
        → (c : ChainResult)
        → Chain next (w.urls.text next ∷ seen) (count_redirect pending hop n) true true c
        → Chain u seen n pending had (with_hop w hop c)
    follows_any _ response (HopRun.one_hop r valid same t) next e c rest =
        follows (HopRun.one_hop r valid same t) e rest

    count_any :
        (hop : Option Hop) (response : HttpObservation)
        → HopRun w u hop (answered response)
        → count_redirect pending hop n ≡ n + waiting pending
    count_any _ response (HopRun.one_hop r valid same t) = count_waiting pending _ n

    follow_rest :
        (hop : Option Hop) (response : HttpObservation)
        → HopRun w u hop (answered response)
        → (next : Url)
        → next_of_response w u seen (count_redirect pending hop n) response ≡ follow next
        → (rest : Option ChainResult)
        → IfSome
            (λ c. Chain next (w.urls.text next ∷ seen) (count_redirect pending hop n) true true c)
            ⊥
            rest
        → IfSome (λ c. Chain u seen n pending had c) ⊥ (Option.map (with_hop w hop) rest)
    follow_rest hop response run next e none bad = elim bad [ ]
    follow_rest hop response run next e (some c) rest = follows_any hop response run next e c rest

  -- The loop ends, with a chain: a round for each redirect that is left, and one more, is enough.
  next_of_response-ended :
      (u : Url) (seen : List Bytes) (n : ℕ) (response : HttpObservation)
      → next_of_response w u seen n response ≢ panic
  unfolding next_of_response
  next_of_response-ended u seen n response e = ground (arith, e)

  pub run_chain-Chain :
      (fuel : ℕ) (u : Url) (seen : List Bytes) (n : ℕ) (pending had : Bool) (time : ℕ)
      → 1 ≤ fuel
      → suc max_redirects ≤ fuel + n + waiting pending
      → IfSome (λ c. Chain u seen n pending had c) ⊥ (run_chain w fuel u seen n pending had time)
  unfolding run_chain
  run_chain-Chain zero u seen n pending had time some_fuel enough = ground arith
  run_chain-Chain (suc fuel) u seen n pending had time some_fuel enough =
      let observed = observe_hop w u time in
      let run = observe_hop-HopRun w u time in
      elim (HopEnd-cases observed.result) [
        | inl (status, reason, detail, e) ↦
            rw (run_chain, e) (halts (subst (HopRun w u observed.hop) e run))
        | inr (inr e) ↦ absurd (HopRun-ended w u observed.hop observed.result run e)
        | inr (inl (response, e)) ↦
            let run' = subst (HopRun w u observed.hop) e run in
            let n' = count_redirect pending observed.hop n in
            let count = count_any u seen n pending had observed.hop response run' in
            elim (Next-cases (next_of_response w u seen n' response)) [
              | inl (status, reason, detail, responded, stops) ↦
                  rw (run_chain, e, stops)
                    (answers_any u seen n pending had observed.hop response run' status reason
                      detail responded observed.time stops)
              | inr (inr panics) ↦ absurd (next_of_response-ended u seen n' response panics)
              | inr (inl (next, goes_on)) ↦
                  let below = (follow-parts u next seen n' response goes_on).1 in
                  rw (run_chain, e, goes_on)
                    (follow_rest u seen n pending had observed.hop response run' next goes_on _ (
                      run_chain-Chain fuel next (w.urls.text next ∷ seen) n' true true observed.time
                        (omega arith) (omega arith)))
            ]
      ]

  pub observe_chain-Chain :
      (u : Url) (n time : ℕ)
      → IfSome (λ c. Chain u (w.urls.text u ∷ []) n false false c) ⊥ (observe_chain w u n time)
  unfolding observe_chain
  observe_chain-Chain u n time =
      run_chain-Chain 4 u (w.urls.text u ∷ []) n false false time (ground arith) (ground arith)
