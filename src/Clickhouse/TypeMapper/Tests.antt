-- ===== src/Clickhouse/TypeMapper/Tests.antt =====
-- Types of ClickHouse, one of them twice.
use mountain_king.Clickhouse.TypeMapper.{map_type_recursive}
use mountain_king.Clickhouse.TypeMapper.Cached.{resolved}
use mountain_king.Prelude.{◌≡◌, refl, List, [], ◌∷◌, Bytes, codes, map, bytes_eq, has_prefix}
use mountain_king.Starrocks.TypeMapper.{graphql_int, graphql_json, graphql_boolean}

abbrev types : List Bytes
types =
    codes "LowCardinality(Nullable(Bool))"
    ∷ codes "SimpleAggregateFunction(any, Array(UInt8))"
    ∷ codes " UInt32 "
    ∷ codes "LowCardinality(Nullable(Bool))"
    ∷ []

types_of : map resolved types ≡ graphql_boolean ∷ graphql_json ∷ graphql_int ∷ graphql_boolean ∷ []
unfolding map_type_recursive bytes_eq has_prefix
types_of = refl
