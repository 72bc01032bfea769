-- ===== src/RateLimit.antt =====
-- internal/ratelimit: the local limiter, and the one that falls back to it.
pub mod Fallback
pub mod Local
