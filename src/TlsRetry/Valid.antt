-- ===== src/TlsRetry/Valid.antt =====
-- What runTarget leaves passes validateTarget.
pub mod Sequence
pub mod Running
pub mod Stopped
pub mod Draws
pub mod Target
