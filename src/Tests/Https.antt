-- ===== src/Tests/Https.antt =====
-- internal/dnshttpspath/service.go on a record with the parameters mandatory, alpn and port.
use reachrun.Prelude.{
  ℕ, Bool, true, false, List, none, some, [], ◌∷◌, ◌≡◌, ◌↔◌, arith, Bytes, codes, All, is_empty,
}
use reachrun.Dns.Types
use reachrun.Dns.Types.{QueryType, BindingMode, ServiceBinding, ServiceParameter, Record}
use reachrun.HttpsPath.Service.{
  BindingReference, BindingDecision, BindingReason, mandatory_keys, alpn_ids, normalized_keys,
  evaluate_binding,
}
use reachrun.HttpsPath.Service.Params.{
  Rising, encode_keys, encode_ids, NotEmpty, mandatory_keys_iff, alpn_ids_iff,
}
use reachrun.HttpsPath.Targets.{service_address_targets}
use reachrun.HttpsPath.Targets.Ordered.{IsTargets, service_address_targets-IsTargets}
use reachrun.HttpsPath.Service.Keys.{normalized_keys-Rising}
use reachrun.HttpsPath.Service.Description.{IsDecision}
use reachrun.HttpsPath.Service.Decision.{evaluate_binding-IsDecision}

abbrev param : ℕ → Bytes → ServiceParameter
param key value_hex = record { key = key; name = []; value_hex = value_hex }

-- mandatory=port alpn=http/1.1 port=443
abbrev binding : ServiceBinding
binding = record {
  priority = 1;
  target = codes "svc.test";
  mode = BindingMode.service;
  params_nil = false;
  params =
      param 0 (codes "0003") ∷ param 1 (codes "08687474702f312e31") ∷ param 3 (codes "01bb") ∷ [];
}

abbrev reference : BindingReference
reference = record {
  record_index = 0;
  record_of = record {
    name = codes "a.test";
    type = QueryType.https;
    ttl = 60;
    address = [];
    family = Types.IpFamily.none;
    target = [];
    service = some binding;
  };
}

evaluate_binding-IsDecision_example :
    (d : BindingDecision) × (evaluate_binding reference binding ≡ some d)
    × IsDecision binding.params d
evaluate_binding-IsDecision_example = evaluate_binding-IsDecision reference binding

mandatory_keys_iff_example :
    (mandatory_keys (0 ∷ 1 ∷ 0 ∷ 3 ∷ []) ≡ some (1 ∷ 3 ∷ []))
    ↔ ((0 ∷ 1 ∷ 0 ∷ 3 ∷ []) ≡ encode_keys (1 ∷ 3 ∷ []))
      × Rising none (1 ∷ 3 ∷ [])
      × (is_empty {A = ℕ} (1 ∷ 3 ∷ []) ≡ false)
mandatory_keys_iff_example =
    mandatory_keys_iff (0 ∷ 1 ∷ 0 ∷ 3 ∷ []) (1 ∷ 3 ∷ [])
      (omega arith, (omega arith, (omega arith, (omega arith, tt))))

alpn_ids_iff_example :
    (alpn_ids (2 ∷ codes "h2") ≡ some (codes "h2" ∷ []))
    ↔ ((2 ∷ codes "h2") ≡ encode_ids (codes "h2" ∷ []))
      × All NotEmpty (codes "h2" ∷ [])
      × (is_empty {A = Bytes} (codes "h2" ∷ []) ≡ false)
alpn_ids_iff_example = alpn_ids_iff (2 ∷ codes "h2") (codes "h2" ∷ [])

normalized_keys-Rising_example :
    Rising none (normalized_keys (3 ∷ 1 ∷ 3 ∷ []))
    × ((P : ℕ → Type 0) → All P (normalized_keys (3 ∷ 1 ∷ 3 ∷ [])) ↔ All P (3 ∷ 1 ∷ 3 ∷ []))
normalized_keys-Rising_example = normalized_keys-Rising (3 ∷ 1 ∷ 3 ∷ [])

abbrev decision : ℕ → Bytes → Bool → BindingDecision
decision priority hostname is_usable = record {
  record_index = 0;
  priority = priority;
  address_hostname = hostname;
  is_usable = is_usable;
  reason = BindingReason.usable;
  unsupported_parameter_keys = [];
}

abbrev decisions : List BindingDecision
decisions =
    decision 2 (codes "b") true
    ∷ decision 0 (codes "c") false
    ∷ decision 1 (codes "a") true
    ∷ decision 3 (codes "b") true
    ∷ []

service_address_targets-IsTargets_example : IsTargets decisions (service_address_targets decisions)
service_address_targets-IsTargets_example = service_address_targets-IsTargets decisions
