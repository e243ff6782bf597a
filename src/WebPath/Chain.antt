-- ===== src/WebPath/Chain.antt =====
-- observeChain of internal/webpath/observer.go: the redirects that are followed from one URL.
use reachrun.Prelude.{
  ℕ, zero, suc, ◌+◌, ◌++◌, Bool, true, false, not, ◌||◌, Option, none, some, List, [], ◌∷◌, leb,
  if◌then◌else◌, Bytes, bytes_eq, ok, err,
}
use mathlib.Core.Option
use reachrun.NetTarget.RequestTarget.{Url}
use reachrun.WebObservation.{HttpObservation}
use reachrun.WebPath.{
  Status, completed, stopped, StopReason, final_response, redirect_loop, redirect_limit,
  max_redirects, Hop, Detail, plain, bad_redirect, loop, limit,
}
use reachrun.WebPath.Redirect.{is_redirect_status, redirect_target}
use reachrun.WebPath.Hops.{World, HopEnd, answered, ended, panicked, observe_hop}

-- The result of a chain, with what it left in the builder: its hops, and the number of redirects.
pub record ChainResult : Type 0 where
  pub hops : List Hop
  pub redirects_followed : ℕ
  pub status : Status
  pub reason : StopReason
  pub detail : Detail
  pub had_response : Bool
  pub time : ℕ

abbrev pub hop_list : Option Hop → List Hop
hop_list none = []
hop_list (some h) = h ∷ []

-- A redirect counts once its hop exists.
abbrev pub count_redirect : Bool → Option Hop → ℕ → ℕ
count_redirect true (some _) n = n + 1
count_redirect _ _ n = n

unfoldable pub contains_text : Bytes → List Bytes → Bool
contains_text t [] = false
contains_text t (s ∷ ss) = bytes_eq s t || contains_text t ss

-- What one round decides: a stop, the next URL, or that the code panics.
pub data Next : Type 0 where
  stop : Status → StopReason → Detail → Bool → Next
  follow : Url → Next
  panic : Next

module _ (w : World) where
  abbrev pub follow_unless_seen : List Bytes → Url → Next
  follow_unless_seen seen next =
      if contains_text (w.urls.text next) seen
      then stop stopped redirect_loop loop true
      else follow next

  unfoldable pub next_of_response : Url → List Bytes → ℕ → HttpObservation → Next
  next_of_response current seen redirects response =
      if not (is_redirect_status response.status_code)
      then stop completed final_response (plain []) true
      else if leb max_redirects redirects
      then stop stopped redirect_limit limit true
      else elim (redirect_target w.net w.urls current response) [
        | err reason ↦ stop stopped reason bad_redirect true
        | ok next ↦ follow_unless_seen seen next
      ]

  abbrev pub next_of : Url → List Bytes → ℕ → Bool → HopEnd → Next
  next_of current seen redirects had (ended status reason detail) = stop status reason detail had
  next_of current seen redirects had (answered response) =
      next_of_response current seen redirects response
  next_of current seen redirects had panicked = panic

  abbrev pub with_hop : Option Hop → ChainResult → ChainResult
  with_hop hop r = record {
    hops = hop_list hop ++ r.hops;
    redirects_followed = r.redirects_followed;
    status = r.status;
    reason = r.reason;
    detail = r.detail;
    had_response = r.had_response;
    time = r.time;
  }

  -- The loop, on fuel. `none` is that the fuel ran out, or that the code panics.
  unfoldable pub run_chain : ℕ → Url → List Bytes → ℕ → Bool → Bool → ℕ → Option ChainResult
  run_chain zero current seen redirects pending had time = none
  run_chain (suc fuel) current seen redirects pending had time =
      let observed = observe_hop w current time in
      let followed = count_redirect pending observed.hop redirects in
      elim (next_of current seen followed had observed.result) [
        | stop status reason detail responded ↦ some (record {
          hops = hop_list observed.hop;
          redirects_followed = followed;
          status = status;
          reason = reason;
          detail = detail;
          had_response = responded;
          time = observed.time;
        })
        | panic ↦ none
        | follow next ↦
            Option.map (with_hop observed.hop)
              (run_chain fuel next (w.urls.text next ∷ seen) followed true true observed.time)
      ]

  -- The limit on redirects bounds the rounds.
  abbrev pub chain_fuel : ℕ
  chain_fuel = suc max_redirects

  unfoldable pub observe_chain : Url → ℕ → ℕ → Option ChainResult
  observe_chain initial redirects time =
      run_chain chain_fuel initial (w.urls.text initial ∷ []) redirects false false time
