-- ===== src/Host.antt =====
-- The crate mcps-host.
pub mod Signer
pub mod Session
