-- ===== src/Scalar.antt =====
-- internal/graphql/scalar: the scalars of the GraphQL schema.
pub mod AnyValue
