-- ===== src/SystemResolver.antt =====
-- internal/platform/systemresolver: resolver.go and validate.go. The lookup of the operating system,
-- the clock and the context are parameters.
pub mod Checks
pub mod Resolve
pub mod Valid
pub mod Accepted
use reachrun.Prelude.{ℕ, Bool, true, false, Option, none, some, List, Bytes, codes, bytes_eq}
use reachrun.Probe.{Envelope, Outcome, Failure}

pub data Family : Type 0 where
  ipv4 ipv6 : Family
  unsupported : Bytes → Family

unfoldable pub family_eq : Family → Family → Bool
family_eq ipv4 ipv4 = true
family_eq ipv6 ipv6 = true
family_eq (unsupported s) (unsupported t) = bytes_eq s t
family_eq _ _ = false

pub record Input : Type 0 where
  pub hostname : Bytes

pub record Address : Type 0 where
  pub ip : Bytes
  pub family : Family

pub record Evidence : Type 0 where
  pub addresses : List Address

abbrev pub Resolution : Type 0
Resolution = Envelope Input Evidence

abbrev pub kind_system_resolution : Bytes
kind_system_resolution = codes "system_resolution"

abbrev pub failure_invalid_input : Bytes
failure_invalid_input = codes "invalid_input"

abbrev pub failure_name_unresolved : Bytes
failure_name_unresolved = codes "name_unresolved"

abbrev pub failure_timeout : Bytes
failure_timeout = codes "timeout"

abbrev pub failure_resolution_failure : Bytes
failure_resolution_failure = codes "resolution_failure"
