-- ===== src/Starrocks/Writable.antt =====
-- internal/adapter/starrocks/writable_tables.go and writable_table_validator.go: the whitelist of the
-- tables and columns that may be written. A Go map is the list of its entries, in the order in which
-- a `range` goes through it; a `map[string]bool` the list of its keys that are true.
pub mod Subset
mod Parsed
mod Tests
use mountain_king.Errors.{
  ApiError, Code, Result, ok, err, ◌>>=◌, ◌>>◌, validation_error, err_validation_invalid_table,
  err_validation_invalid_field, err_mutation_operation_not_supported,
}
use mountain_king.Prelude.{
  Bool, not, ◌||◌, Option, none, some, List, [], ◌∷◌, Bytes, codes, bytes_eq, if◌then◌else◌, any,
}
use mountain_king.Starrocks.Identifier.{validate_identifier}
use mountain_king.Starrocks.Query.{Columns}
use mountain_king.Value.{
  Value, Items, nil, cons, Fields, end, field, string, slice, object, lookup_field,
}

pub record WritableTableConfig : Type 0 where
  pub columns : List Bytes
  pub allowed_operations : List Bytes

abbrev pub Writable : Type 0
Writable = List (Bytes × WritableTableConfig)

-- `m[key]` of a map of tables and of a map[string]bool.
unfoldable pub lookup_table : Bytes → Writable → Option WritableTableConfig
lookup_table table [] = none
lookup_table table ((name, cfg) ∷ ts) =
    let rest = lookup_table table ts in if bytes_eq name table then some cfg else rest

unfoldable pub has_key : Bytes → List Bytes → Bool
has_key key keys = any (λ k. bytes_eq k key) keys

-- `if err := ValidateIdentifier(name); err != nil { return ValidationError(code, …) }`.
unfoldable pub checked : Code → Bytes → Result (Unit {0})
unfolding validate_identifier
checked code name = elim (validate_identifier name) [ ok _ ↦ ok tt | err _ ↦ validation_error code ]

unfoldable pub parse_columns : Items → Result (List Bytes)
unfolding checked
parse_columns nil = ok []
parse_columns (cons (string name) cs) = do
  checked err_validation_invalid_field name
  names ← parse_columns cs
  ok (name ∷ names)
parse_columns (cons c cs) = validation_error err_validation_invalid_field

unfoldable pub columns_of : Option Value → Result (List Bytes)
unfolding parse_columns
columns_of (some (slice (cons c cs))) = parse_columns (cons c cs)
columns_of (some v) = validation_error err_validation_invalid_field
columns_of none = validation_error err_validation_invalid_field

abbrev pub default_allowed_operations : List Bytes
default_allowed_operations = codes "insert" ∷ codes "update" ∷ codes "delete" ∷ []

unfoldable pub known_operation : Bytes → Result (Unit {0})
unfolding has_key
known_operation op =
    if not (has_key op default_allowed_operations)
    then validation_error err_validation_invalid_table
    else ok tt

unfoldable pub parse_operations : Items → Result (List Bytes)
unfolding known_operation
parse_operations nil = ok []
parse_operations (cons (string op) ops) = do
  known_operation op
  rest ← parse_operations ops
  ok (op ∷ rest)
parse_operations (cons op ops) = validation_error err_validation_invalid_table

unfoldable pub operations_of : Option Value → Result (List Bytes)
unfolding parse_operations
operations_of (some (slice (cons op ops))) = parse_operations (cons op ops)
operations_of (some v) = validation_error err_validation_invalid_table
operations_of none = ok default_allowed_operations

unfoldable pub parse_table : Value → Result WritableTableConfig
unfolding columns_of operations_of lookup_field
parse_table (object table_map) = do
  cols ← columns_of (lookup_field (codes "columns") table_map)
  ops ← operations_of (lookup_field (codes "allowed_operations") table_map)
  ok (record { columns = cols; allowed_operations = ops })
parse_table v = validation_error err_validation_invalid_table

unfoldable pub parse_tables : Fields → Result Writable
unfolding checked parse_table
parse_tables end = ok []
parse_tables (field name def tables) = do
  checked err_validation_invalid_table name
  cfg ← parse_table def
  rest ← parse_tables tables
  ok ((name, cfg) ∷ rest)

unfoldable pub tables_of : Option Value → Result Writable
unfolding parse_tables
tables_of (some (object (field name def tables))) = parse_tables (field name def tables)
tables_of (some v) = validation_error err_validation_invalid_table
tables_of none = validation_error err_validation_invalid_table

-- `ParseWritableTables`, of the map `cfg.Options`.
unfoldable pub parse_writable_tables : Fields → Result Writable
unfolding tables_of lookup_field
parse_writable_tables options = tables_of (lookup_field (codes "writable_tables") options)

-- `map[string]map[string]bool`.
abbrev pub Allowed : Type 0
Allowed = Bytes → Option Columns

unfoldable pub check_allowed : Columns → List Bytes → Result (Unit {0})
check_allowed allowed [] = ok tt
check_allowed allowed (col ∷ cols) = do
  if not (allowed col) then validation_error err_validation_invalid_field else ok tt
  check_allowed allowed cols

unfoldable pub validate_writable_subset : Writable → Allowed → Result (Unit {0})
unfolding check_allowed
validate_writable_subset [] allowed = ok tt
validate_writable_subset ((name, cfg) ∷ ts) allowed = do
  elim (allowed name) [
    | none ↦ validation_error err_validation_invalid_table
    | some cols ↦ check_allowed cols cfg.columns
  ]
  validate_writable_subset ts allowed

pub record WritableTableValidator : Type 0 where
  pub writable_tables : Writable
  pub allowed_tables : Allowed

unfoldable pub find_table : WritableTableValidator → Bytes → Result WritableTableConfig
unfolding lookup_table
find_table v table = elim (lookup_table table v.writable_tables) [
  | none ↦ validation_error err_validation_invalid_table
  | some cfg ↦ ok cfg
]

unfoldable pub validate_writable : WritableTableValidator → Bytes → Result (Unit {0})
unfolding find_table
validate_writable v table = do cfg ← find_table v table; ok tt

unfoldable pub validate_operation : WritableTableValidator → Bytes → Bytes → Result (Unit {0})
unfolding find_table has_key
validate_operation v table operation = do
  cfg ← find_table v table
  if not (has_key operation cfg.allowed_operations)
      then err (record { code = err_mutation_operation_not_supported; status_code = 400 })
      else ok tt

unfoldable pub validate_write_columns :
    WritableTableValidator → Bytes → List Bytes → Result (Unit {0})
unfolding find_table check_allowed
validate_write_columns v table columns = do
  cfg ← find_table v table
  check_allowed (λ c. has_key c cfg.columns) columns

unfoldable pub validate_filter_columns :
    WritableTableValidator → Bytes → List Bytes → Result (Unit {0})
unfolding check_allowed
validate_filter_columns v table fields = elim (v.allowed_tables table) [
  | none ↦ validation_error err_validation_invalid_table
  | some cols ↦ check_allowed cols fields
]
