-- ===== src/Starrocks/TypeMapper/Tests.antt =====
-- Types of columns.
use mountain_king.Prelude.{◌≡◌, refl, codes}
use mountain_king.Starrocks.TypeMapper.{
  map_type, graphql_int, graphql_string, graphql_date_time, graphql_json,
}

integer : map_type (codes " bigint(20)") ≡ graphql_int
unfolding map_type
integer = refl

decimal : map_type (codes "Decimal (10, 2)") ≡ graphql_string
unfolding map_type
decimal = refl

date : map_type (codes "datetime") ≡ graphql_date_time
unfolding map_type
date = refl

json : map_type (codes "JSON") ≡ graphql_json
unfolding map_type
json = refl

unsupported : map_type (codes "BITMAP") ≡ graphql_string
unfolding map_type
unsupported = refl
