-- ===== src/NetTarget.antt =====
-- internal/nettarget: the policy for hostnames, addresses and request targets of web probes.
pub mod Address
pub mod Hostname
pub mod PublicIp
pub mod RequestTarget
pub mod Accepted
