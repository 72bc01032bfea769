-- ===== src/Starrocks/TypeMapper.antt =====
-- internal/adapter/starrocks/type_mapper.go, on ASCII text.
mod Tests
use mountain_king.Cache.Normalize.{to_upper}
use mountain_king.Middleware.AuthFailureLimiter.ClientIp.{trim_space}
use mountain_king.Prelude.{
  Bool, List, [], ◌∷◌, Bytes, codes, ◌==◌, if◌then◌else◌, any, map, bytes_eq,
}

pub data GraphqlType : Type 0 where
  graphql_int graphql_float graphql_string graphql_boolean graphql_date_time graphql_json :
      GraphqlType

abbrev pub among : Bytes → List Bytes → Bool
among s names = any (bytes_eq s) names

-- What stands in front of the first `(`, all of it if there is none.
unfoldable before_paren : Bytes → Bytes
before_paren [] = []
before_paren (c ∷ s) = let rest = before_paren s in if c == b'(' then [] else c ∷ rest

-- The `switch` on the name of a type.
unfoldable named_type : Bytes → GraphqlType
unfolding bytes_eq
named_type s =
    if among s (
      codes "INT"
      ∷ codes "BIGINT"
      ∷ codes "TINYINT"
      ∷ codes "SMALLINT"
      ∷ codes "INTEGER"
      ∷ codes "LARGEINT"
      ∷ [])
    then graphql_int
    else if among s (codes "FLOAT" ∷ codes "DOUBLE" ∷ [])
    then graphql_float
    else if among s (codes "VARCHAR" ∷ codes "STRING" ∷ codes "CHAR" ∷ codes "TEXT" ∷ [])
    then graphql_string
    else if among s (codes "BOOLEAN" ∷ codes "BOOL" ∷ [])
    then graphql_boolean
    else if among s (codes "DECIMAL" ∷ codes "NUMERIC" ∷ [])
    then graphql_string
    else if among s (codes "DATETIME" ∷ codes "DATE" ∷ codes "TIMESTAMP" ∷ [])
    then graphql_date_time
    else if among s (codes "JSON" ∷ [])
    then graphql_json
    else graphql_string

-- The name without its parameters.
unfoldable pub stripped : Bytes → Bytes
unfolding trim_space before_paren
stripped s = if any (λ c. c == b'(') s then trim_space (before_paren s) else s

unfoldable pub map_type : Bytes → GraphqlType
unfolding trim_space stripped named_type
map_type sql_type = named_type (stripped (map to_upper (trim_space sql_type)))
