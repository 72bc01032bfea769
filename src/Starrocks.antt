-- ===== src/Starrocks.antt =====
-- internal/adapter/starrocks: the SQL that the StarRocks adapter builds.
pub mod Identifier
pub mod Fragment
pub mod Mutation
pub mod Cursor
pub mod Query
pub mod TypeMapper
pub mod Writable
pub mod Adapter
