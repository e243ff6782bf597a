-- ===== src/Tests.antt =====
-- Runs of the modelled functions on concrete inputs, and the theorems at such inputs.
mod Dns
mod Ssh
mod Https
mod Tls
mod Web
mod Path
