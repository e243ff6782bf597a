-- ===== src/Dns.antt =====
-- internal/dnsobservation: reading one DNS response into evidence.
pub mod Types
pub mod Wire
pub mod Decode
pub mod Cnames
pub mod Evidence
pub mod Hostname
pub mod Validate
