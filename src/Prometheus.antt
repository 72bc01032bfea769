-- ===== src/Prometheus.antt =====
-- internal/adapter/prometheus: the PromQL that the adapter sends, up to the HTTP request.
pub mod Validator
pub mod Builder
pub mod Response
pub mod Lexer
pub mod Matchers
mod Tests
