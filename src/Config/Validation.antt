-- ===== src/Config/Validation.antt =====
-- internal/config/validation.go: the whitelist of a StarRocks data source, the JWT settings and the
-- settings of mutations. An error is a constructor for each message. What a file with a public key
-- comes to (os, pem, x509) is a parameter.
pub mod Whitelists
mod Tests
use mountain_king.Datasource.Manager.{SourceConfig}
use mountain_king.Prelude.{
  ℕ, Bool, true, false, not, ◌&&◌, ◌||◌, Option, none, some, List, [], ◌∷◌, ◌++◌, Bytes, codes,
  bytes_eq, ltb, if◌then◌else◌, length, is_words,
}
use mountain_king.Prelude.Int.{ℤ, ltb_ℤ}
use mountain_king.Value.{
  Value, Items, nil, cons, Fields, end, field, string, slice, object, null, lookup_field,
}

pub data ConfigError : Type 0 where
  whitelist_missing whitelist_not_map whitelist_empty table_not_map columns_missing columns_not_list
        columns_empty column_not_string column_invalid :
      ConfigError
  algorithm_unknown secret_missing secret_short key_file_set key_file_missing secret_set :
      ConfigError
  datasource_missing datasource_disabled datasource_unknown datasource_not_writable
        batch_too_large :
      ConfigError

unfoldable pub column_errors : Items → List ConfigError
unfolding is_words
column_errors nil = []
column_errors (cons (string name) cs) =
    let rest = column_errors cs in if not (is_words name) then column_invalid ∷ rest else rest
column_errors (cons c cs) = column_not_string ∷ column_errors cs

unfoldable pub columns_errors : Option Value → List ConfigError
unfolding column_errors
columns_errors none = columns_missing ∷ []
columns_errors (some (slice nil)) = columns_empty ∷ []
columns_errors (some (slice (cons c cs))) = column_errors (cons c cs)
columns_errors (some v) = columns_not_list ∷ []

unfoldable pub table_errors : Value → List ConfigError
unfolding columns_errors lookup_field
table_errors (object table_map) = columns_errors (lookup_field (codes "columns") table_map)
table_errors v = table_not_map ∷ []

unfoldable pub tables_errors : Fields → List ConfigError
unfolding table_errors
tables_errors end = []
tables_errors (field name def tables) = table_errors def ++ tables_errors tables

unfoldable pub whitelist_errors : Option Value → List ConfigError
unfolding tables_errors
whitelist_errors none = whitelist_missing ∷ []
whitelist_errors (some null) = whitelist_missing ∷ []
whitelist_errors (some (object end)) = whitelist_empty ∷ []
whitelist_errors (some (object (field name def tables))) = tables_errors (field name def tables)
whitelist_errors (some v) = whitelist_not_map ∷ []

unfoldable pub validate_starrocks_whitelist : Fields → List ConfigError
unfolding whitelist_errors lookup_field
validate_starrocks_whitelist options =
    whitelist_errors (lookup_field (codes "allowed_tables") options)

pub record JwtConfig : Type 0 where
  pub algorithm : Bytes
  pub secret : Bytes
  pub public_key_file : Bytes

abbrev default_algorithm : Bytes → Bytes
default_algorithm [] = codes "HS256"
default_algorithm (c ∷ s) = c ∷ s

-- The two cases of `switch algo`.
unfoldable pub secret_errors : JwtConfig → List ConfigError
unfolding bytes_eq
secret_errors jwt =
    (if bytes_eq jwt.secret []
      then secret_missing ∷ []
      else if ltb (length jwt.secret) 32
      then secret_short ∷ []
      else [])
    ++ (if bytes_eq jwt.public_key_file [] then [] else key_file_set ∷ [])

unfoldable pub key_file_errors : (Bytes → List ConfigError) → JwtConfig → List ConfigError
unfolding bytes_eq
key_file_errors pem_errors jwt =
    (if bytes_eq jwt.public_key_file []
      then key_file_missing ∷ []
      else pem_errors jwt.public_key_file)
    ++ (if bytes_eq jwt.secret [] then [] else secret_set ∷ [])

unfoldable pub validate_jwt_config : (Bytes → List ConfigError) → JwtConfig → List ConfigError
unfolding secret_errors key_file_errors bytes_eq
validate_jwt_config pem_errors jwt =
    let algo = default_algorithm jwt.algorithm in
    if bytes_eq algo (codes "HS256")
    then secret_errors jwt
    else if bytes_eq algo (codes "RS256") || bytes_eq algo (codes "ES256")
    then key_file_errors pem_errors jwt
    else algorithm_unknown ∷ []

pub record MutationsConfig : Type 0 where
  pub enabled : Bool
  pub datasource_name : Bytes
  pub max_batch_size : ℤ
  pub max_affected_rows : ℤ

-- The first data source of the name, if it is enabled: its type.
unfoldable pub type_of_source : Bytes → List SourceConfig → ConfigError × Option Bytes
unfolding bytes_eq
type_of_source name [] = (datasource_unknown, none)
type_of_source name (cfg ∷ cfgs) =
    let rest = type_of_source name cfgs in
    if bytes_eq cfg.name name
    then (if not cfg.enabled
        then (datasource_disabled, none)
        else (datasource_unknown, some cfg.type_name))
    else rest

-- Nothing, or the error.
unfoldable pub validate_mutations_config : List SourceConfig → MutationsConfig → Option ConfigError
unfolding type_of_source bytes_eq
validate_mutations_config sources cfg =
    let (failed, found) = type_of_source cfg.datasource_name sources in
    if not cfg.enabled
    then none
    else if bytes_eq cfg.datasource_name []
    then some datasource_missing
    else elim found [
      | none ↦ some failed
      | some ds_type ↦
          if not (bytes_eq ds_type (codes "starrocks"))
            && not (bytes_eq ds_type (codes "clickhouse"))
          then some datasource_not_writable
          else if ltb_ℤ cfg.max_affected_rows cfg.max_batch_size
          then some batch_too_large
          else none
    ]
