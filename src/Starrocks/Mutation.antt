-- ===== src/Starrocks/Mutation.antt =====
-- internal/adapter/starrocks/mutation_validator.go and mutation_sql_builder.go: the checks of a write
-- operation and the SQL that is built for it.
pub mod Builder
mod Clauses
pub mod Placeholders
mod Tests
use mountain_king.Datasource.Request.{FilterCondition}
use mountain_king.Errors.{
  Result, ok, err, ◌>>=◌, ◌>>◌, Code, err_validation_invalid_field, err_validation_invalid_table,
  err_validation_batch_limit_exceeded, err_validation_payload_too_large, validation_error,
}
use mountain_king.Prelude.{
  ℕ, Bool, true, false, not, List, [], ◌∷◌, Bytes, ltb, ◌==◌, if◌then◌else◌, length,
}
use mountain_king.Starrocks.Identifier.{validate_mutation_identifier}
use mountain_king.Value.{Value}

pub record MutationValidator : Type 0 where
  pub max_batch_size : ℕ
  pub max_sql_length : ℕ

-- `if err := ValidateMutationIdentifier(name); err != nil { return ValidationError(code, …) }`.
unfoldable pub check_identifier : Code → Bytes → Result (Unit {0})
check_identifier code name = elim (validate_mutation_identifier name) [
  | ok _ ↦ ok tt
  | err _ ↦ validation_error code
]

unfoldable pub check_columns : List Bytes → Result (Unit {0})
check_columns [] = ok tt
check_columns (col ∷ cols) = do
  check_identifier err_validation_invalid_field col
  check_columns cols

unfoldable pub check_filters : List FilterCondition → Result (Unit {0})
check_filters [] = ok tt
check_filters (f ∷ fs) = do check_identifier err_validation_invalid_field f.field; check_filters fs

unfoldable pub check_rows : ℕ → List (List Value) → Result (Unit {0})
check_rows width [] = ok tt
check_rows width (row ∷ rows) = do
  if not (length row == width) then validation_error err_validation_invalid_field else ok tt
  check_rows width rows

-- `if len(xs) == 0 { return error }`.
unfoldable pub not_empty {ℓ} : {A : Type ℓ} → List A → Result (Unit {0})
not_empty [] = validation_error err_validation_invalid_field
not_empty (x ∷ xs) = ok tt

unfoldable pub validate_insert_input : Bytes → List Bytes → List Value → Result (Unit {0})
unfolding check_identifier check_columns not_empty
validate_insert_input table columns values = do
  check_identifier err_validation_invalid_table table
  not_empty values
  if not (length columns == length values)
      then validation_error err_validation_invalid_field
      else ok tt
  check_columns columns

unfoldable pub validate_update_input : Bytes → List Bytes → List FilterCondition → Result (Unit {0})
unfolding check_identifier check_columns check_filters not_empty
validate_update_input table set_cols filters = do
  check_identifier err_validation_invalid_table table
  not_empty set_cols
  not_empty filters
  check_columns set_cols
  check_filters filters

unfoldable pub validate_delete_input : Bytes → List FilterCondition → Result (Unit {0})
unfolding check_identifier check_filters not_empty
validate_delete_input table filters = do
  check_identifier err_validation_invalid_table table
  not_empty filters
  check_filters filters

unfoldable pub validate_batch_insert_input :
    MutationValidator → Bytes → List Bytes → List (List Value) → Result (Unit {0})
unfolding check_identifier check_columns check_rows not_empty
validate_batch_insert_input v table columns rows = do
  check_identifier err_validation_invalid_table table
  if ltb v.max_batch_size (length rows)
      then validation_error err_validation_batch_limit_exceeded
      else ok tt
  not_empty columns
  check_columns columns
  check_rows (length columns) rows

unfoldable pub validate_sql_length : MutationValidator → Bytes → Result (Unit {0})
validate_sql_length v sql =
    if ltb v.max_sql_length (length sql)
    then validation_error err_validation_payload_too_large
    else ok tt
