-- ===== src/Core.antt =====
-- mcps-core: the pure verification core.
pub mod Error
pub mod Failure
pub mod Ids
pub mod Json
pub mod Envelope
pub mod Constraints
pub mod Crypto
pub mod Canonical
pub mod Signing
pub mod Libraries
pub mod Pipeline
pub mod Dispatch
pub mod Response
pub mod Replay
pub mod Resolver
pub mod Time
pub mod Unwrap
pub mod Wire
pub mod Audit
