-- ===== src/Cache/Claims.antt =====
-- runtime_cache/claims.py: `ExpiringClaimStore`, keys that one token owns until their TTL lapses.
pub mod Methods
pub mod Replies
pub mod Exclusion
