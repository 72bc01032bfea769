-- ===== src/Starrocks/Writable/Tests.antt =====
-- A whitelist of one table.
use mountain_king.Errors.{
  ok, err, validation_error, err_validation_invalid_table, err_mutation_operation_not_supported,
}
use mountain_king.Prelude.{◌≡◌, refl, some, none, [], ◌∷◌, codes, bytes_eq, if◌then◌else◌, is_words}
use mountain_king.Starrocks.Writable.{
  Writable, has_key, default_allowed_operations, parse_writable_tables, validate_writable_subset,
  Allowed, WritableTableValidator, validate_operation, validate_write_columns,
}
use mountain_king.Value.{nil, cons, end, field, string, slice, object, Fields}

abbrev options : Fields
options =
    field (codes "writable_tables")
      (object (
        field (codes "orders")
          (object (field (codes "columns") (slice (cons (string (codes "amount")) nil)) end)) end))
      end

abbrev orders : Writable
orders =
    (
      codes "orders",
      record { columns = codes "amount" ∷ []; allowed_operations = default_allowed_operations },
    )
    ∷ []

abbrev readable : Allowed
readable table =
    if bytes_eq table (codes "orders")
    then some (λ c. has_key c (codes "id" ∷ codes "amount" ∷ []))
    else none

abbrev validator : WritableTableValidator
validator = record { writable_tables = orders; allowed_tables = readable }

parsed : parse_writable_tables options ≡ ok orders
unfolding parse_writable_tables bytes_eq is_words
parsed = refl

not_listed : parse_writable_tables end ≡ validation_error err_validation_invalid_table
unfolding parse_writable_tables
not_listed = refl

not_supported :
    validate_operation validator (codes "orders") (codes "drop")
    ≡ err (record { code = err_mutation_operation_not_supported; status_code = 400 })
unfolding validate_operation bytes_eq
not_supported = refl

is_subset : validate_writable_subset orders readable ≡ ok tt
unfolding validate_writable_subset bytes_eq has_key
is_subset = refl

writes_amount : validate_write_columns validator (codes "orders") (codes "amount" ∷ []) ≡ ok tt
unfolding validate_write_columns bytes_eq has_key
writes_amount = refl
