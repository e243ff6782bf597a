-- ===== src/WebPath/Explained.antt =====
-- The end of a hop and of a round of the chain, and the evidence that the checks of a report ask for it.
use reachrun.Prelude.{
  ℕ, ◌≤◌, true, false, not, ◌&&◌, ◌||◌, none, some, List, [], ◌∷◌, ◌++◌, leb, ◌==◌, ==_iff, Bytes,
  bytes_eq, is_empty, length, ◌≡◌, refl, sym, ◌∙◌, subst, ◌⊎◌, inl, inr, Bool-cases, Result-cases,
  arith, ok, err,
}
use reachrun.Probe.{Outcome}
use reachrun.NetTarget.RequestTarget.{Url}
use reachrun.SystemResolver.{Resolution}
use reachrun.SystemResolver.Checks.{is_failed}
use reachrun.WebObservation.{Observation, HttpObservation}
use reachrun.WebPath
use reachrun.WebPath.{
  Status, completed, stopped, StopReason, final_response, resolution_failed, no_public_candidates,
  all_candidates_failed, redirect_location_unavailable, redirect_target_invalid,
  redirect_target_unsafe, redirect_loop, redirect_limit, path_timeout, invalid_probe_evidence,
  Detail, is_silent, max_redirects,
}
use reachrun.WebPath.Redirect.{is_redirect_status, redirect_target}
use reachrun.WebPath.Hops.{World, ended, hop_of}
use reachrun.WebPath.Chain.{Next, stop, follow, panic, contains_text, next_of_response}
use reachrun.WebPath.Checks.{validate_terminal_pair, stops_invalid, is_completed}
use reachrun.WebPath.Checks.Hop.{
  succeeded, all_failed, last_attempt, response_if_succeeded, successful_attempt, candidates_of,
  exhausted_public_candidates,
}
use reachrun.WebPath.Checks.Transitions.{Parsed, check_reason, repeats, usable_location}
use reachrun.WebPath.Ends.{
  Interrupted, by_cancel, by_timeout, by_bad_evidence, Tried, stopped_before, unresolved, no_public,
  tried, LoopEnd, interrupted, exhausted, Run-LoopEnd,
}
use reachrun.WebPath.WebUrl.{IsWebLibrary}
use reachrun.WebPath.Redirected.{redirect_target-reason}

-- A status, a reason and a detail that fit each other.
pub record IsEnd (status : Status) (reason : StopReason) (detail : Detail) : Type 0 where
  pub pair : validate_terminal_pair status reason ≡ ok tt
  pub silent : is_completed status && not (is_silent detail) ≡ false
  pub valid : stops_invalid status reason ≡ false

pub Interrupted-IsEnd :
    (status : Status) (reason : StopReason) (detail : Detail)
    → Interrupted status reason
    → IsEnd status reason detail
unfolding validate_terminal_pair
Interrupted-IsEnd _ _ detail by_cancel = record { pair = refl; silent = refl; valid = refl }
Interrupted-IsEnd _ _ detail by_timeout = record { pair = refl; silent = refl; valid = refl }
Interrupted-IsEnd _ _ detail by_bad_evidence = record { pair = refl; silent = refl; valid = refl }

failed-other : (o : Outcome) → is_failed o ≡ true → succeeded o ≡ false
failed-other o h = ground (arith, h)

failed-silent :
    (attempts : List Observation)
    → all_failed attempts ≡ true
    → response_if_succeeded (last_attempt attempts) ≡ none
failed-silent [] h = refl
failed-silent (r ∷ []) h =
    rw (response_if_succeeded, failed-other r.outcome (ground (arith, h))) refl
failed-silent (r ∷ s ∷ rest) h = failed-silent (s ∷ rest) (ground (arith, h))

module _ (w : World) where
  exhausted-ok :
      (u : Url) (r : Resolution) (attempts : List Observation)
      → succeeded r.outcome ≡ true
      → is_empty (candidates_of w r) ≡ false
      → all_failed attempts ≡ true
      → length attempts ≡ length (candidates_of w r)
      → exhausted_public_candidates w (hop_of w u r attempts) ≡ true
  unfolding exhausted_public_candidates successful_attempt
  exhausted-ok u r attempts found some_left all count =
      rw
        (
          exhausted_public_candidates,
          found,
          failed-silent attempts all,
          some_left,
          (==_iff _ _).1 count,
          all,
        )
        refl

  -- What the end of a hop needs of the hop that is last.
  abbrev pub Explains : Status → StopReason → Detail → ℕ → List Parsed → Parsed → Type 0
  Explains status reason detail followed hops last =
      IsEnd status reason detail
      × (Interrupted status reason ⊎ (check_reason w reason followed hops last ≡ ok tt))

  LoopEnd-Explains :
      (u : Url) (r : Resolution) (attempts : List Observation) (status : Status)
      (reason : StopReason) (detail : Detail) (followed : ℕ) (hops : List Parsed)
      → succeeded r.outcome ≡ true
      → is_empty (candidates_of w r) ≡ false
      → LoopEnd attempts (length (candidates_of w r)) (ended status reason detail)
      → Explains status reason detail followed hops (hop_of w u r attempts, u)
  unfolding check_reason validate_terminal_pair
  LoopEnd-Explains u r attempts _ _ detail followed hops found some_left (interrupted i) =
      (Interrupted-IsEnd _ _ detail i, inl i)
  LoopEnd-Explains u r attempts _ _ detail followed hops found some_left (exhausted all count) = (
    record { pair = refl; silent = refl; valid = refl },
    inr (rw (exhausted-ok u r attempts found some_left all count) refl),
  )

  pub Tried-Explains :
      (u : Url) (r : Resolution) (attempts : List Observation) (status : Status)
      (reason : StopReason) (detail : Detail) (followed : ℕ) (hops : List Parsed)
      → Tried w u r attempts (ended status reason detail)
      → Explains status reason detail followed hops (hop_of w u r attempts, u)
  unfolding check_reason validate_terminal_pair
  Tried-Explains u r _ _ _ detail followed hops (stopped_before i) =
      (Interrupted-IsEnd _ _ detail i, inl i)
  Tried-Explains u r _ _ _ detail followed hops (unresolved f) =
      (record { pair = refl; silent = refl; valid = refl }, inr (rw f refl))
  Tried-Explains u r _ _ _ detail followed hops (no_public f e) =
      (record { pair = refl; silent = refl; valid = refl }, inr (rw (f, e) refl))
  Tried-Explains u r attempts status reason detail followed hops (tried found some_left run) =
      LoopEnd-Explains u r attempts status reason detail followed hops found some_left
        (Run-LoopEnd w u run)

  repeats-append :
      (t : Bytes) (before : List Parsed) (hop : Parsed)
      → repeats w t (before ++ hop ∷ []) ≡ (bytes_eq (w.urls.text hop.1) t || repeats w t before)
  repeats-append t [] hop = refl
  repeats-append t (p ∷ before) hop = ground (arith, repeats-append t before hop)

  -- The URLs that were seen are those of the hops.
  abbrev pub Covers : Url → List Bytes → List Parsed → Type 0
  Covers u seen before =
      (t : Bytes)
      → contains_text t seen ≡ true
      → (bytes_eq (w.urls.text u) t || repeats w t before) ≡ true

  pub Covers-next :
      (u next : Url) (seen : List Bytes) (before : List Parsed) (hop : WebPath.Hop)
      → Covers u seen before
      → Covers next (w.urls.text next ∷ seen) (before ++ (hop, u) ∷ [])
  unfolding contains_text
  Covers-next u next seen before hop covers t h =
      ground (arith, h, covers t, repeats-append t before (hop, u))

  -- What a round of the chain decides, with the response that its hop ends with.
  abbrev pub NextExplains : Url → ℕ → List Parsed → Parsed → Next → Type 0
  NextExplains u followed hops last (stop status reason detail responded) =
      IsEnd status reason detail × (check_reason w reason followed hops last ≡ ok tt)
  NextExplains u followed hops last (follow next) = Unit
  NextExplains u followed hops last panic = ⊥

  module _ (lawful : IsWebLibrary w.net w.urls) (u : Url) (seen : List Bytes) (followed : ℕ)
      (response : HttpObservation) (before : List Parsed) (hop : WebPath.Hop)
      (success : successful_attempt hop ≡ some response) where
    abbrev hops_so_far : List Parsed
    hops_so_far = before ++ (hop, u) ∷ []

    abbrev RefusedOf : StopReason → Type 0
    RefusedOf why =
        IsEnd stopped why WebPath.bad_redirect
        × (check_reason w why followed hops_so_far (hop, u) ≡ ok tt)

    RefusedOf-subst : (why why' : StopReason) → why ≡ why' → RefusedOf why → RefusedOf why'
    RefusedOf-subst why why' e = subst RefusedOf e

    refused-explains :
        (why : StopReason)
        → is_redirect_status response.status_code ≡ true
        → redirect_target w.net w.urls u response ≡ err why
        → RefusedOf why
    unfolding check_reason validate_terminal_pair
    refused-explains why redirects refused =
        let (unavailable, other) =
          redirect_target-reason w.net w.urls lawful u response why refused in
        elim (Bool-cases (response.location_omitted || is_empty response.location)) [
          | inl none_left ↦
              let unusable : usable_location w response ≡ false = ground (arith, none_left) in
              RefusedOf-subst redirect_location_unavailable why (sym (unavailable.1 none_left)) (
                record { pair = refl; silent = refl; valid = refl },
                rw (success, redirects, unusable) refl,
              )
          | inr usable ↦ elim (other usable) [
            | inl e ↦ RefusedOf-subst redirect_target_unsafe why (sym e) (
              record { pair = refl; silent = refl; valid = refl },
              ground (arith, success, redirects, refused, e),
            )
            | inr e ↦ RefusedOf-subst redirect_target_invalid why (sym e) (
              record { pair = refl; silent = refl; valid = refl },
              ground (arith, success, redirects, refused, e),
            )
          ]
        ]

    looped-explains :
        (next : Url)
        → is_redirect_status response.status_code ≡ true
        → redirect_target w.net w.urls u response ≡ ok next
        → contains_text (w.urls.text next) seen ≡ true
        → Covers u seen before
        → check_reason w redirect_loop followed hops_so_far (hop, u) ≡ ok tt
    unfolding check_reason
    looped-explains next redirects target again covers =
        let repeated : repeats w (w.urls.text next) hops_so_far ≡ true =
          repeats-append (w.urls.text next) before (hop, u) ∙ covers (w.urls.text next) again in
        ground (arith, success, redirects, target, repeated)

    pub next-explains :
        followed ≤ max_redirects
        → Covers u seen before
        → NextExplains u followed hops_so_far (hop, u) (next_of_response w u seen followed response)
    unfolding next_of_response check_reason validate_terminal_pair
    next-explains few covers = elim (Bool-cases (is_redirect_status response.status_code)) [
      | inr final ↦
          rw (next_of_response, final)
            (record { pair = refl; silent = refl; valid = refl }, rw (success, final) refl)
      | inl redirects ↦ elim (Bool-cases (leb max_redirects followed)) [
        | inl over ↦
            let at_limit : (followed == max_redirects) ≡ true = ground (arith, over, few) in
            rw (next_of_response, redirects, over)
              (
                record { pair = refl; silent = refl; valid = refl },
                rw (at_limit, success, redirects) refl,
              )
        | inr under ↦ elim (Result-cases (redirect_target w.net w.urls u response)) [
          | inr (why, e) ↦
              rw (next_of_response, redirects, under, e) (refused-explains why redirects e)
          | inl (next, e) ↦ elim (Bool-cases (contains_text (w.urls.text next) seen)) [
            | inl again ↦
                rw (next_of_response, redirects, under, e, again)
                  (
                    record { pair = refl; silent = refl; valid = refl },
                    looped-explains next redirects e again covers,
                  )
            | inr new ↦ rw (next_of_response, redirects, under, e, new) tt
          ]
        ]
      ]
    ]
