-- ===== src/HttpsPath.antt =====
-- internal/dnshttpspath: following the HTTPS records of one hostname.
pub mod Service
pub mod Targets
