-- ===== src/WebPath/Hops.antt =====
-- observeHop of internal/webpath/observer.go: one URL, its resolution and its attempts.
use reachrun.Prelude.{
  ◌≡◌, refl, ℕ, ◌+◌, Bool, true, false, ◌&&◌, Option, none, some, List, [], ◌∷◌, Bytes, bytes_eq,
  Result, ok, err,
}
use reachrun.Probe.{Platform, Outcome, Failure, platform_eq}
use reachrun.NetTarget.Address.{NetLibrary}
use reachrun.NetTarget.RequestTarget.{Url, UrlLibrary, escaped_path}
use reachrun.SystemResolver
use reachrun.SystemResolver.{Address, Resolution}
use reachrun.SystemResolver.Checks.{validate_resolution}
use reachrun.WebObservation
use reachrun.WebObservation.{Request, Observation, HttpObservation}
use reachrun.WebObservation.Checks.{EvidenceLibrary, validate_observation}
use reachrun.WebPath.{
  Status, stopped, StopReason, resolution_failed, no_public_candidates, all_candidates_failed,
  invalid_probe_evidence, Hop, Detail, plain, context_done, invalid_resolution, other_resolution,
  no_candidates, invalid_observation, other_observation, all_failed,
}
use reachrun.WebPath.Candidates.{Contexts, terminal_context, select_public_candidates}

-- The libraries, and what the interfaces answer at a time: the two contexts, the resolver and the web
-- observer. Each use takes one unit of time.
pub record World : Type 0 where
  pub net : NetLibrary
  pub urls : UrlLibrary
  pub evidence : EvidenceLibrary
  pub platform : Platform
  pub contexts : ℕ → Contexts
  pub resolver : ℕ → Bytes → Resolution
  pub web : ℕ → Request → Observation

-- What a hop ends with: a response, or a stop.
pub data HopEnd : Type 0 where
  answered : HttpObservation → HopEnd
  ended : Status → StopReason → Detail → HopEnd
  panicked : HopEnd

abbrev pub cancelled_end : HopEnd
cancelled_end = ended Status.cancelled StopReason.cancelled (plain [])

abbrev pub stop_end : StopReason → Detail → HopEnd
stop_end reason detail = ended stopped reason detail

-- The attempts of a hop, its end, and the time behind it.
pub record Attempts : Type 0 where
  pub attempts : List Observation
  pub result : HopEnd
  pub time : ℕ

pub record HopResult : Type 0 where
  pub hop : Option Hop
  pub result : HopEnd
  pub time : ℕ

abbrev pub is_ok : {E : Type 0} → Result E Unit → Bool
is_ok (ok _) = true
is_ok (err _) = false

pub ok_of_is_ok : {E : Type 0} {m : Result E Unit} → is_ok m ≡ true → m ≡ ok tt
ok_of_is_ok {m = ok _} h = refl
ok_of_is_ok {m = err _} h = cc h

-- What ends the loop behind an attempt with this outcome, if anything does.
abbrev pub end_of_outcome : Outcome → Option WebObservation.Evidence → Option HopEnd
end_of_outcome Outcome.cancelled evidence = some cancelled_end
end_of_outcome Outcome.succeeded (some e) = some (answered e.http)
end_of_outcome Outcome.succeeded none = some panicked
end_of_outcome Outcome.failed evidence = none
end_of_outcome (Outcome.unsupported _) evidence = none

module _ (w : World) where
  abbrev pub host_of : Url → Bytes
  host_of u = w.urls.host_name u.host

  abbrev pub request_for : Url → Bytes → Request
  request_for u candidate = record {
    scheme = u.scheme;
    hostname = host_of u;
    dial_ip = candidate;
    path = escaped_path w.urls u;
    raw_query = u.raw_query;
  }

  unfoldable pub is_requested : Url → Bytes → Observation → Bool
  is_requested u candidate r =
      platform_eq r.platform w.platform
      && bytes_eq r.input.scheme u.scheme
      && bytes_eq r.input.hostname (host_of u)
      && bytes_eq r.input.dial_ip candidate
      && bytes_eq r.input.path (escaped_path w.urls u)
      && bytes_eq r.input.raw_query u.raw_query

  abbrev pub is_valid_observation : Observation → Bool
  is_valid_observation r = is_ok (validate_observation w.net w.urls w.evidence r)

  abbrev pub is_valid_resolution : Resolution → Bool
  is_valid_resolution r = is_ok (validate_resolution w.net r)

  unfoldable pub end_of_attempt : ℕ → Observation → Option HopEnd
  end_of_attempt time r = elim (terminal_context (w.contexts time)) [
    | some (status, reason) ↦ some (ended status reason context_done)
    | none ↦ end_of_outcome r.outcome r.evidence
  ]

  -- The loop over the candidates.
  unfoldable pub observe_candidates : Url → ℕ → List Bytes → Attempts
  observe_candidates u time [] = record {
    attempts = [];
    result = stop_end all_candidates_failed all_failed;
    time = time;
  }
  observe_candidates u time (candidate ∷ rest) =
      let r = w.web time (request_for u candidate) in
      elim (is_valid_observation r) [
        | false ↦ record {
          attempts = [];
          result = stop_end invalid_probe_evidence invalid_observation;
          time = time + 1;
        }
        | true ↦ elim (is_requested u candidate r) [
          | false ↦ record {
            attempts = [];
            result = stop_end invalid_probe_evidence other_observation;
            time = time + 1;
          }
          | true ↦ elim (end_of_attempt (time + 1) r) [
            | some result ↦ record { attempts = r ∷ []; result = result; time = time + 2 }
            | none ↦
                let behind = observe_candidates u (time + 2) rest in
                record {
                  attempts = r ∷ behind.attempts;
                  result = behind.result;
                  time = behind.time;
                }
          ]
        ]
      ]

  abbrev pub hop_of : Url → Resolution → List Observation → Hop
  hop_of u resolution attempts = record {
    url = w.urls.text u;
    resolution = resolution;
    attempts = attempts;
    attempts_nil = false;
  }

  -- The candidates of a resolution that succeeded.
  unfoldable pub observe_addresses : Url → ℕ → Resolution → List Bytes → HopResult
  observe_addresses u time resolution [] = record {
    hop = some (hop_of u resolution []);
    result = stop_end no_public_candidates no_candidates;
    time = time;
  }
  observe_addresses u time resolution (candidate ∷ rest) =
      let run = observe_candidates u time (candidate ∷ rest) in
      record { hop = some (hop_of u resolution run.attempts); result = run.result; time = run.time }

  abbrev pub without_hop : ℕ → HopEnd → HopResult
  without_hop time result = record { hop = none; result = result; time = time }

  -- `resolution.Evidence.Addresses` and `resolution.Failure.Detail`, which panic on a nil pointer.
  abbrev pub observe_evidence : Url → ℕ → Resolution → Option SystemResolver.Evidence → HopResult
  observe_evidence u time resolution none = without_hop time panicked
  observe_evidence u time resolution (some e) =
      observe_addresses u time resolution (select_public_candidates w.net e.addresses)

  abbrev pub observe_failure : Url → ℕ → Resolution → Option Failure → HopResult
  observe_failure u time resolution none = without_hop time panicked
  observe_failure u time resolution (some f) = record {
    hop = some (hop_of u resolution []);
    result = stop_end resolution_failed (plain f.detail);
    time = time;
  }

  -- The switch on the outcome of the resolution.
  unfoldable pub observe_outcome : Url → ℕ → Resolution → HopResult
  observe_outcome u time resolution = elim resolution.outcome [
    | Outcome.cancelled ↦ record {
      hop = some (hop_of u resolution []);
      result = cancelled_end;
      time = time;
    }
    | Outcome.succeeded ↦ observe_evidence u time resolution resolution.evidence
    | _ ↦ observe_failure u time resolution resolution.failure
  ]

  unfoldable pub observe_resolution : Url → ℕ → Resolution → HopResult
  observe_resolution u time resolution = elim (terminal_context (w.contexts time)) [
    | some (status, reason) ↦ record {
      hop = some (hop_of u resolution []);
      result = ended status reason context_done;
      time = time + 1;
    }
    | none ↦ observe_outcome u (time + 1) resolution
  ]

  abbrev pub is_resolution_of : Url → Resolution → Bool
  is_resolution_of u r = platform_eq r.platform w.platform && bytes_eq r.input.hostname (host_of u)

  unfoldable pub observe_hop : Url → ℕ → HopResult
  observe_hop u time = elim (terminal_context (w.contexts time)) [
    | some (status, reason) ↦ without_hop (time + 1) (ended status reason context_done)
    | none ↦
        let resolution = w.resolver (time + 1) (host_of u) in
        elim (is_valid_resolution resolution) [
          | false ↦ without_hop (time + 2) (stop_end invalid_probe_evidence invalid_resolution)
          | true ↦ elim (is_resolution_of u resolution) [
            | false ↦ without_hop (time + 2) (stop_end invalid_probe_evidence other_resolution)
            | true ↦ observe_resolution u (time + 2) resolution
          ]
        ]
  ]
