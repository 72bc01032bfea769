-- ===== src/Config.antt =====
-- internal/config: the validation of the configuration.
pub mod Validation
