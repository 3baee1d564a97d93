-- ===== src/Proxy/Respond/Verified.antt =====
-- What the proxy of mcps-proxy/src/proxy.rs signs, the verifier of the core verifies.
use mcps.Core.Libraries.{Libraries}
