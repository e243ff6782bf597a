-- ===== src/WebPath/Candidates.antt =====
-- selectPublicCandidates and terminalContext of internal/webpath/observer.go.
use reachrun.Prelude.{
  ℕ, ◌+◌, Bool, true, false, not, ◌&&◌, ◌||◌, Option, none, some, List, [], ◌∷◌, leb, Bytes,
  bytes_eq,
}
use reachrun.NetTarget.Address.{NetLibrary, Addr}
use reachrun.NetTarget.PublicIp.{IpError, normalize_public_ip}
use reachrun.SystemResolver.{Family, ipv4, ipv6, family_eq, Address}
use reachrun.SystemResolver.Checks.{family_of}
use reachrun.SystemResolver.Resolve.{ContextError, active, canceled, deadline_exceeded}
use reachrun.WebPath.{Status, StopReason, path_timeout, stopped, candidate_limit_per_family}

-- The map of the counts; a family that is neither reads 0, and counting it has no use.
pub record Counts : Type 0 where
  pub ipv4 : ℕ
  pub ipv6 : ℕ

abbrev pub no_counts : Counts
no_counts = record { ipv4 = 0; ipv6 = 0 }

abbrev pub count_of : Family → Counts → ℕ
count_of ipv4 counts = counts.ipv4
count_of ipv6 counts = counts.ipv6
count_of (Family.unsupported _) counts = 0

abbrev pub counted : Family → Counts → Counts
counted ipv4 counts = record { ipv4 = counts.ipv4 + 1; ipv6 = counts.ipv6 }
counted ipv6 counts = record { ipv4 = counts.ipv4; ipv6 = counts.ipv6 + 1 }
counted (Family.unsupported _) counts = counts

-- Whether the public form of an address is what stands there, under its own family.
abbrev pub is_listed : Address → Bytes → Option Addr → Option IpError → Bool
is_listed address text (some a) none =
    bytes_eq text address.ip && family_eq (family_of a) address.family
is_listed address text _ _ = false

module _ (lib : NetLibrary) where
  abbrev pub is_candidate : Address → Bool
  is_candidate address =
      let public = normalize_public_ip lib address.ip in
      is_listed address public.text public.ip public.error

  unfoldable pub select_from : Counts → List Address → List Bytes
  select_from counts [] = []
  select_from counts (address ∷ rest) =
      elim (leb candidate_limit_per_family (count_of address.family counts)
        || not (is_candidate address)) [
          | true ↦ select_from counts rest
          | false ↦ address.ip ∷ select_from (counted address.family counts) rest
        ]

  abbrev pub select_public_candidates : List Address → List Bytes
  select_public_candidates addresses = select_from no_counts addresses

-- `parent.Err()` and `attempt.Err()`, each read once.
pub record Contexts : Type 0 where
  pub parent : ContextError
  pub attempt : ContextError

abbrev pub terminal_of : ContextError → ContextError → Option (Status × StopReason)
terminal_of canceled _ = some (Status.cancelled, StopReason.cancelled)
terminal_of deadline_exceeded _ = some (stopped, path_timeout)
terminal_of active deadline_exceeded = some (stopped, path_timeout)
terminal_of active canceled = some (Status.cancelled, StopReason.cancelled)
terminal_of active active = none

abbrev pub terminal_context : Contexts → Option (Status × StopReason)
terminal_context c = terminal_of c.parent c.attempt
