-- ===== src/Resolver.antt =====
-- internal/graphql/resolver: the writes that a mutation hands to the data source.
pub mod Statements
pub mod Execute
pub mod Requests
pub mod Connection
pub mod Prometheus
pub mod Templates
