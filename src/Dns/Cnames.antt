-- ===== src/Dns/Cnames.antt =====
-- followCNAMEs of internal/dnsobservation/message.go.
pub mod Chain
pub mod Walk
use reachrun.Prelude.{
  Bool, true, false, not, ◌&&◌, Option, none, some, List, [], ◌∷◌, if◌then◌else◌, Bytes, bytes_eq,
  contains, Targets, find,
}
use reachrun.Dns.Types.{QueryType, cname, query_type_eq, Record}

-- The map of targets and the flag `complete`, as the first loop leaves them.
pub record Collected : Type 0 where
  pub targets : Targets
  pub complete : Bool

-- One round of the first loop.
unfoldable pub collect_step : Record → Collected → Collected
collect_step r s = if not (query_type_eq r.type cname) then s else elim (find r.name s.targets) [
  | none ↦ record s { targets = (r.name, r.target) ∷ s.targets }
  | some existing ↦
      if not (bytes_eq existing r.target)
      then record s { complete = false }
      else record s { targets = (r.name, r.target) ∷ s.targets }
]

unfoldable pub collect : List Record → Collected → Collected
collect [] s = s
collect (r ∷ rs) s = collect rs (collect_step r s)

-- The second loop, which has one round for each record, and the test behind it.
unfoldable pub walk : List Record → Collected → Bytes → List Bytes → Bytes × Bool
walk [] s effective seen = elim (find effective s.targets) [
  | none ↦ (effective, s.complete)
  | some _ ↦ (effective, false)
]
walk (_ ∷ rounds) s effective seen = elim (find effective s.targets) [
  | none ↦ (effective, s.complete)
  | some target ↦ elim (contains target seen) [
    | true ↦ (effective, false)
    | false ↦ walk rounds s target (target ∷ seen)
  ]
]

abbrev pub nothing_collected : Collected
nothing_collected = record { targets = []; complete = true }

unfoldable pub follow_cnames : Bytes → List Record → Bytes × Bool
follow_cnames hostname records =
    walk records (collect records nothing_collected) hostname (hostname ∷ [])
