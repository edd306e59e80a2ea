-- ===== src/Cache/Backend.antt =====
-- runtime_cache/fake.py: `InMemoryCacheBackend`, the Redis commands that the cache issues.
-- A clock counts microseconds; the dicts that no method iterates over are functions of the key.
pub mod SortedSet
pub mod Commands
pub mod Expiry
pub mod Refinement
pub mod Trimming
pub mod Indexes
pub mod Unchanged
pub mod Lifetimes
