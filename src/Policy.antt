-- ===== src/Policy.antt =====
-- The crate mcps-policy: the authorization of a request that the core has verified.
pub mod Error
pub mod Block
pub mod Revocation
pub mod Profile
pub mod Evaluator
pub mod Scope
pub mod Reference
