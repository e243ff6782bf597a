-- ===== src/Ssh.antt =====
-- internal/sshobservation: the bounded SSH identification exchange.
pub mod Identification
pub mod Exchange
