-- ===== src/Client.antt =====
-- The crate mcps-client-core.
pub mod Correlation
pub mod Audience
pub mod Request
pub mod Signer
pub mod Authz
pub mod Response
pub mod Enforcement
mod Tests
