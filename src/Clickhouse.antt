-- ===== src/Clickhouse.antt =====
-- internal/adapter/clickhouse: identifiers and the query builder.
pub mod Query
pub mod Adapter
pub mod TypeMapper
