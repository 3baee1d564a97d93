-- ===== src/Client/Request/Verified.antt =====
-- The signature of a request that mcps-client-core/src/request.rs signs verifies in the core.
use mcps.Core.Libraries.{Libraries}
