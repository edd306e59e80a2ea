-- ===== src/Cache.antt =====
-- The shared runtime cache (policyengine_api/runtime_cache).
pub mod Backend
pub mod Client
pub mod Claims
pub mod Core
mod Tests
