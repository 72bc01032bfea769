-- ===== src/Middleware.antt =====
-- internal/middleware: the brute-force protection and the authorisation of requests.
pub mod AuthFailureLimiter
pub mod Authz
pub mod Auth
pub mod Guards
