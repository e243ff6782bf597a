-- ===== src/HttpsPath/Targets.antt =====
-- relevantBindings, evaluateBindings and serviceAddressTargets of internal/dnshttpspath/service.go:
-- from the records of a response to the hostnames that are asked for addresses.
pub mod Ordered
use reachrun.Prelude.{
  ℕ, ◌+◌, Bool, true, false, not, ◌&&◌, ◌||◌, Option, none, some, List, [], ◌∷◌, if◌then◌else◌,
  Bytes, bytes_eq, contains, sort_by,
}
use reachrun.Probe.{Envelope}
use reachrun.Dns.Types
use reachrun.Dns.Types.{
  QueryType, query_type_eq, BindingMode, ServiceBinding, Record, Evidence, Input,
}
use reachrun.HttpsPath.Service.{BindingReference, BindingDecision, evaluate_binding}

pub data TargetSource : Type 0 where
  service_mode alias_fallback origin_fallback : TargetSource

pub record AddressTarget : Type 0 where
  pub hostname : Bytes
  pub source : TargetSource
  pub priority : ℕ
  pub observations : List (Envelope Input Evidence)

pub record Relevant : Type 0 where
  pub aliases : List BindingReference
  pub services : List BindingReference

abbrev is_alias : BindingMode → Bool
is_alias BindingMode.alias = true
is_alias BindingMode.service = false

abbrev add_reference : BindingReference → ServiceBinding → Relevant → Relevant
add_reference reference b found =
    if is_alias b.mode
    then record found { aliases = reference ∷ found.aliases }
    else record found { services = reference ∷ found.services }

-- The loop over the records from `index` on; each is put in front of what follows it.
unfoldable pub relevant_loop : Bytes → ℕ → List Record → Relevant
relevant_loop effective index [] = record { aliases = []; services = [] }
relevant_loop effective index (r ∷ rs) =
    let found = relevant_loop effective (index + 1) rs in
    if not (query_type_eq r.type QueryType.https) || not (bytes_eq r.name effective)
    then found
    else elim r.service [
      | none ↦ found
      | some b ↦ add_reference (record { record_index = index; record_of = r }) b found
    ]

unfoldable pub relevant_bindings : Evidence → Relevant
relevant_bindings evidence = relevant_loop evidence.effective_name 0 evidence.records

-- `none` is a panic: a nil pointer, or that of `evaluateBinding`.
unfoldable pub evaluate_bindings : List BindingReference → Option (List BindingDecision)
evaluate_bindings [] = some []
evaluate_bindings (s ∷ services) = elim s.record_of.service [
  | none ↦ none
  | some b ↦ elim (evaluate_binding s b) [
    | none ↦ none
    | some d ↦ elim (evaluate_bindings services) [ none ↦ none | some ds ↦ some (d ∷ ds) ]
  ]
]

unfoldable pub usable_decisions : List BindingDecision → List BindingDecision
usable_decisions [] = []
usable_decisions (d ∷ ds) = let rest = usable_decisions ds in if d.is_usable then d ∷ rest else rest

abbrev pub target_of : BindingDecision → AddressTarget
target_of d = record {
  hostname = d.address_hostname;
  source = service_mode;
  priority = d.priority;
  observations = [];
}

-- The last loop, with the hostnames seen.
unfoldable pub distinct_targets : List Bytes → List BindingDecision → List AddressTarget
distinct_targets seen [] = []
distinct_targets seen (d ∷ ds) = elim (contains d.address_hostname seen) [
  | true ↦ distinct_targets seen ds
  | false ↦ target_of d ∷ distinct_targets (d.address_hostname ∷ seen) ds
]

unfoldable pub service_address_targets : List BindingDecision → List AddressTarget
service_address_targets decisions =
    distinct_targets [] (sort_by (λ d. d.priority) (usable_decisions decisions))
