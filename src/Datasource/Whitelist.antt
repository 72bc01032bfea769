-- ===== src/Datasource/Whitelist.antt =====
-- `ParseAllowedTables` of internal/adapter/starrocks/whitelist.go and of
-- internal/adapter/clickhouse/whitelist.go: the tables and columns that may be read. The two files
-- differ in their `ValidateIdentifier` only, which is the parameter here. A Go map is the list of its
-- entries, in the order in which a `range` goes through it.
pub mod Names
use mountain_king.Errors.{
  Code, Result, ok, err, ◌>>=◌, ◌>>◌, validation_error, err_validation_invalid_table,
  err_validation_invalid_field,
}
use mountain_king.Prelude.{
  Bool, Option, none, some, List, [], ◌∷◌, Bytes, codes, bytes_eq, if◌then◌else◌, any,
}
use mountain_king.Value.{
  Value, Items, nil, cons, Fields, end, field, string, slice, object, lookup_field,
}

-- `map[string]map[string]bool`, a set of columns being the list of its keys.
abbrev pub Tables : Type 0
Tables = List (Bytes × List Bytes)

-- `m[table]`, and what `m[table][column]` yields for each column.
unfoldable pub allowed_in : Tables → Bytes → Option (Bytes → Bool)
allowed_in [] table = none
allowed_in ((name, cols) ∷ ts) table =
    let rest = allowed_in ts table in
    if bytes_eq name table then some (λ c. any (λ k. bytes_eq k c) cols) else rest

module _ (validate_identifier : Bytes → Result (Unit {0})) where
  unfoldable pub checked_name : Code → Bytes → Result (Unit {0})
  checked_name code name = elim (validate_identifier name) [
    | ok _ ↦ ok tt
    | err _ ↦ validation_error code
  ]

  unfoldable pub allowed_columns : Items → Result (List Bytes)
  unfolding checked_name
  allowed_columns nil = ok []
  allowed_columns (cons (string name) cs) = do
    checked_name err_validation_invalid_field name
    names ← allowed_columns cs
    ok (name ∷ names)
  allowed_columns (cons c cs) = validation_error err_validation_invalid_field

  unfoldable pub columns_key : Option Value → Result (List Bytes)
  unfolding allowed_columns
  columns_key (some (slice (cons c cs))) = allowed_columns (cons c cs)
  columns_key (some v) = validation_error err_validation_invalid_field
  columns_key none = validation_error err_validation_invalid_field

  unfoldable pub allowed_table : Value → Result (List Bytes)
  unfolding columns_key lookup_field
  allowed_table (object table_map) = columns_key (lookup_field (codes "columns") table_map)
  allowed_table v = validation_error err_validation_invalid_table

  unfoldable pub allowed_tables : Fields → Result Tables
  unfolding checked_name allowed_table
  allowed_tables end = ok []
  allowed_tables (field name def tables) = do
    checked_name err_validation_invalid_table name
    cols ← allowed_table def
    rest ← allowed_tables tables
    ok ((name, cols) ∷ rest)

  unfoldable pub tables_key : Option Value → Result Tables
  unfolding allowed_tables
  tables_key (some (object (field name def tables))) = allowed_tables (field name def tables)
  tables_key (some v) = validation_error err_validation_invalid_table
  tables_key none = validation_error err_validation_invalid_table

  -- Of the map `cfg.Options`.
  unfoldable pub parse_allowed_tables : Fields → Result Tables
  unfolding tables_key lookup_field
  parse_allowed_tables options = tables_key (lookup_field (codes "allowed_tables") options)
