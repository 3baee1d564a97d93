-- ===== src/Proxy.antt =====
-- The crate mcps-proxy.
pub mod TrustCache
pub mod SharedReplay
pub mod DurableReplay
pub mod RevocationTier
pub mod ReplayTier
pub mod LiveTrust
pub mod PushTrust
pub mod Scrub
pub mod Proxying
pub mod Forward
pub mod Respond
pub mod Handle
