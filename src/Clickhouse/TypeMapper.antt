-- ===== src/Clickhouse/TypeMapper.antt =====
-- internal/adapter/clickhouse/type_mapper.go, on ASCII text. A call takes the cache and returns it; the
-- warnings in the log are left out.
mod Cached
mod Tests
use mountain_king.Cache.Normalize.{to_upper}
use mountain_king.Middleware.AuthFailureLimiter.ClientIp.{trim_space}
use mountain_king.Prelude.{
  ℕ, zero, suc, Bool, true, false, ◌&&◌, ◌||◌, not, Option, none, some, List, [], ◌∷◌, ◌++◌, Bytes,
  codes, ◌==◌, if◌then◌else◌, any, map, reverse, bytes_eq, has_prefix,
}
use mountain_king.Prelude.Int.{ℤ, pos, negsuc, ◌+ℤ◌}
use mountain_king.Starrocks.TypeMapper.{
  GraphqlType, graphql_int, graphql_float, graphql_string, graphql_boolean, graphql_date_time,
  graphql_json, among, stripped,
}
use mountain_king.Table.{Table, find, put}

-- What stands behind the first `(`, if there is one.
unfoldable after_open : Bytes → Option Bytes
after_open [] = none
after_open (c ∷ s) = let rest = after_open s in if c == b'(' then some s else rest

-- What stands in front of the last `)`, if there is one.
unfoldable before_close : Bytes → Option Bytes
before_close [] = none
before_close (c ∷ s) = elim (before_close s) [
  | none ↦ if c == b')' then some [] else none
  | some front ↦ some (c ∷ front)
]

abbrev or_all : Bytes → Option Bytes → Bytes
or_all s none = s
or_all s (some inner) = inner

abbrev trimmed_close : Option Bytes → Option Bytes
unfolding before_close trim_space
trimmed_close none = none
trimmed_close (some behind) = elim (before_close behind) [
  | none ↦ none
  | some inner ↦ some (trim_space inner)
]

-- Between the first `(` and the last `)`, or all of the text.
unfoldable pub extract_inner : Bytes → Bytes
unfolding after_open trimmed_close
extract_inner s = or_all s (trimmed_close (after_open s))

abbrev is_zero : ℤ → Bool
is_zero (pos zero) = true
is_zero (pos (suc n)) = false
is_zero (negsuc n) = false

-- What stands behind the last comma that no parentheses enclose, from a depth on.
unfoldable after_comma : ℤ → Bytes → Option Bytes
unfolding ◌+ℤ◌
after_comma depth [] = none
after_comma depth (c ∷ s) =
    let rest =
      after_comma
        (if c == b'(' then depth +ℤ pos 1 else if c == b')' then depth +ℤ negsuc 0 else depth) s in
    elim rest [
      | none ↦ if c == b',' && is_zero depth then some s else none
      | some behind ↦ some behind
    ]

abbrev trimmed : Bytes → Option Bytes → Bytes
unfolding trim_space
trimmed inner none = inner
trimmed inner (some behind) = trim_space behind

unfoldable pub extract_last_type_arg : Bytes → Bytes
unfolding extract_inner after_comma
extract_last_type_arg s =
    let inner = extract_inner s in
    if bytes_eq inner s then s else trimmed inner (after_comma (pos 0) inner)

unfoldable has_suffix : Bytes → Bytes → Bool
has_suffix s suffix = has_prefix (reverse s) (reverse suffix)

-- The `switch` on the name of a type.
unfoldable named_type : Bytes → GraphqlType
unfolding bytes_eq
named_type base =
    if among base (
      codes "INT8"
      ∷ codes "INT16"
      ∷ codes "INT32"
      ∷ codes "UINT8"
      ∷ codes "UINT16"
      ∷ codes "UINT32"
      ∷ [])
    then graphql_int
    else if among base (
        codes "INT64"
        ∷ codes "UINT64"
        ∷ codes "INT128"
        ∷ codes "INT256"
        ∷ codes "UINT128"
        ∷ codes "UINT256"
        ∷ [])
    then graphql_string
    else if among base (codes "FLOAT32" ∷ codes "FLOAT64" ∷ codes "BFLOAT16" ∷ [])
    then graphql_float
    else if among base (codes "STRING" ∷ codes "FIXEDSTRING" ∷ [])
    then graphql_string
    else if among base (codes "BOOL" ∷ codes "BOOLEAN" ∷ [])
    then graphql_boolean
    else if among base (
        codes "DECIMAL"
        ∷ codes "DECIMAL32"
        ∷ codes "DECIMAL64"
        ∷ codes "DECIMAL128"
        ∷ codes "DECIMAL256"
        ∷ [])
    then graphql_string
    else if among base (codes "DATE" ∷ codes "DATE32" ∷ codes "DATETIME" ∷ codes "DATETIME64" ∷ [])
    then graphql_date_time
    else if among base (
        codes "ARRAY"
        ∷ codes "TUPLE"
        ∷ codes "MAP"
        ∷ codes "NESTED"
        ∷ codes "JSON"
        ∷ codes "VARIANT"
        ∷ codes "DYNAMIC"
        ∷ [])
    then graphql_json
    else if among base (codes "POINT" ∷ codes "RING" ∷ codes "POLYGON" ∷ codes "MULTIPOLYGON" ∷ [])
    then graphql_json
    else graphql_string

abbrev wraps : Bytes → Bytes → Bool
wraps prefix normalized = has_prefix normalized prefix && has_suffix normalized (codes ")")

-- The type inside of a wrapper, if there is one.
unfoldable pub unwrapped : Bytes → Bytes → Option Bytes
unfolding has_prefix has_suffix extract_inner extract_last_type_arg
unwrapped normalized sql_type =
    if wraps (codes "LOWCARDINALITY(") normalized
    then some (extract_inner sql_type)
    else if wraps (codes "NULLABLE(") normalized
    then some (extract_inner sql_type)
    else if wraps (codes "SIMPLEAGGREGATEFUNCTION(") normalized
    then some (extract_last_type_arg sql_type)
    else none

abbrev pub max_type_recursion_depth : ℕ
max_type_recursion_depth = 10

-- `mapTypeRecursive`, with the levels that are left of the maximum, this one included.
unfoldable pub map_type_recursive : ℕ → Bytes → GraphqlType
unfolding trim_space unwrapped stripped named_type
map_type_recursive zero sql_type = graphql_string
map_type_recursive (suc left) sql_type =
    let normalized = map to_upper (trim_space sql_type) in
    elim (unwrapped normalized sql_type) [
      | none ↦ named_type (stripped normalized)
      | some inner ↦ map_type_recursive left inner
    ]

-- With what the cache holds for a text.
unfoldable pub map_found :
    Bytes → Table GraphqlType → Option GraphqlType → GraphqlType × Table GraphqlType
unfolding put map_type_recursive
map_found sql_type cache none =
    let result = map_type_recursive (suc max_type_recursion_depth) sql_type in
    (result, put sql_type result cache)
map_found sql_type cache (some cached) = (cached, cache)

unfoldable pub map_type : Bytes → Table GraphqlType → GraphqlType × Table GraphqlType
unfolding find map_found
map_type sql_type cache = map_found sql_type cache (find sql_type cache)
