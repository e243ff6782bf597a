-- ===== src/TlsRetry/Normalize.antt =====
-- internal/tlsretrybatch/normalize.go, and initializeTargets of observer.go.
use reachrun.Prelude.{
  ℕ, ◌+◌, ◌-◌, true, false, if◌then◌else◌, Option, none, some, List, [], ◌∷◌, ◌++◌, map, take,
  length, ltb, is_empty, contains, Bytes, codes,
}
use mathlib.Core.Option
use reachrun.NetTarget.Address.{NetLibrary}
use reachrun.NetTarget.PublicIp.{PublicIp, IpError, normalize_public_ip}
use reachrun.TlsRetry.{attempt_limit, TargetResult, not_started}

abbrev pub target_limit : ℕ
target_limit = 4

abbrev pub request_target_limit : ℕ
request_target_limit = 16

-- Times are milliseconds.
pub record Input : Type 0 where
  pub targets : List Bytes
  pub target_limit : ℕ
  pub concurrency_limit : ℕ
  pub attempt_limit : ℕ
  pub retry_limit : ℕ
  pub port : ℕ
  pub sni_mode : Bytes
  pub identity_verification : Bytes
  pub per_attempt_timeout_ms : ℕ
  pub backoff_min_ms : ℕ
  pub backoff_max_ms : ℕ

-- The errors; `bad_target` has the position of the target.
pub data Invalid : Type 0 where
  no_targets too_many : Invalid
  bad_target : ℕ → IpError → Invalid

-- What the loop over the targets keeps; the set `seen` has the entries of `targets`.
pub record Scan : Type 0 where
  pub targets : List Bytes
  pub first_error : Option Invalid

unfoldable pub scan_step : ℕ → PublicIp → Scan → Scan
scan_step index r s = record {
  targets = elim (contains r.text s.targets) [
    | true ↦ s.targets
    | false ↦ s.targets ++ r.text ∷ []
  ];
  first_error = elim s.first_error [
    | some first ↦ some first
    | none ↦ Option.map (bad_target index) r.error
  ];
}

abbrev pub input_of : List Bytes → Input
input_of targets = record {
  targets = targets;
  target_limit = target_limit;
  concurrency_limit = 2;
  attempt_limit = attempt_limit;
  retry_limit = attempt_limit - 1;
  port = 443;
  sni_mode = codes "omitted_no_hostname";
  identity_verification = codes "not_performed_no_hostname";
  per_attempt_timeout_ms = 5000;
  backoff_min_ms = 100;
  backoff_max_ms = 300;
}

-- The tests behind the loop.
unfoldable pub check_scan : List Bytes → Scan → Option Invalid
check_scan request s = elim (is_empty request) [
  | true ↦ some no_targets
  | false ↦ elim s.first_error [
    | some first ↦ some first
    | none ↦ if ltb request_target_limit (length s.targets) then some too_many else none
  ]
]

module _ (lib : NetLibrary) where
  unfoldable pub scan_targets : ℕ → List Bytes → Scan → Scan
  scan_targets index [] s = s
  scan_targets index (value ∷ values) s =
      scan_targets (index + 1) values (scan_step index (normalize_public_ip lib value) s)

  unfoldable pub normalize_request : List Bytes → Input × Option Invalid
  normalize_request request =
      let s = scan_targets 0 request (record { targets = []; first_error = none }) in
      (input_of s.targets, check_scan request s)

abbrev pub bounded_targets : Input → List Bytes
bounded_targets input = take target_limit input.targets

abbrev pub omitted_targets : Input → ℕ
omitted_targets input = length input.targets - target_limit

-- `targetFamily` is netip's.
abbrev pub initialize_targets : (Bytes → Bytes) → Input → List TargetResult
initialize_targets target_family input =
    map
      (λ value. record {
        dial_ip = value;
        family = target_family value;
        status = not_started;
        attempts = [];
        attempts_nil = false;
      })
      (bounded_targets input)
