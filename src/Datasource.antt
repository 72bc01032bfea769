-- ===== src/Datasource.antt =====
-- internal/datasource: the requests that a data source answers, and its circuit breaker.
pub mod Request
pub mod Whitelist
pub mod CircuitBreaker
pub mod Manager
pub mod Connection
pub mod Options
