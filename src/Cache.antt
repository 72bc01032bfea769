-- ===== src/Cache.antt =====
-- internal/cache: the cache of query results.
pub mod Lru
pub mod Memory
pub mod Layer
pub mod Normalize
