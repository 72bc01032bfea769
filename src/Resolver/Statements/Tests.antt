-- ===== src/Resolver/Statements/Tests.antt =====
-- Writes to a whitelist of one table.
use mountain_king.Datasource.Request.{FilterCondition, eq}
use mountain_king.Errors.{ok, err_validation_payload_too_large, validation_error}
use mountain_king.Prelude.{◌≡◌, refl, some, none, List, [], ◌∷◌, codes, bytes_eq, if◌then◌else◌}
use mountain_king.Prelude.Int.{pos}
use mountain_king.Resolver.Statements.{
  ColumnValueInput, update, hand, insert_starrocks, update_starrocks, delete_starrocks,
  insert_batch_starrocks,
}
use mountain_king.Resolver.Statements.Handed.{IsPlain, Permits, Writes, Reads, hand-IsPlain}
use mountain_king.Starrocks.Identifier.{validate_mutation_identifier}
use mountain_king.Starrocks.Mutation.{MutationValidator}
use mountain_king.Starrocks.Mutation.Builder.{
  MutationSql, build_insert, build_update, build_delete, build_batch_insert,
}
use mountain_king.Starrocks.Writable.{WritableTableValidator, has_key, default_allowed_operations}
use mountain_king.Value.{Value, int, null}

abbrev limits : MutationValidator
limits = record { max_batch_size = 100; max_sql_length = 1000 }

abbrev tables : WritableTableValidator
tables = record {
  writable_tables =
      (
        codes "t",
        record { columns = codes "a" ∷ []; allowed_operations = default_allowed_operations },
      )
      ∷ [];
  allowed_tables = λ table.
      if bytes_eq table (codes "t")
      then some (λ c. has_key c (codes "a" ∷ codes "id" ∷ []))
      else none;
}

abbrev set : List ColumnValueInput
set = record { column = codes "a"; value = int (pos 5) } ∷ []

abbrev filters : List FilterCondition
filters = record { field = codes "id"; operator = eq; value = int (pos 1) } ∷ []

abbrev inserted : MutationSql
inserted = build_insert (codes "t") (codes "a" ∷ []) (int (pos 5) ∷ [])

abbrev updated : MutationSql
updated = build_update (codes "t") (codes "a" ∷ []) (int (pos 5) ∷ []) filters

abbrev deleted : MutationSql
deleted = build_delete (codes "t") filters

abbrev rows : List (List Value)
rows = (null ∷ []) ∷ (null ∷ []) ∷ []

abbrev batch : MutationSql
batch = build_batch_insert (codes "t") (codes "a" ∷ []) rows

inserts : insert_starrocks limits tables (codes "t") set ≡ ok inserted
unfolding insert_starrocks validate_mutation_identifier bytes_eq has_key build_insert
inserts = refl

updates : update_starrocks limits tables (codes "t") set filters ≡ ok updated
unfolding update_starrocks validate_mutation_identifier bytes_eq has_key build_update
updates = refl

deletes : delete_starrocks limits tables (codes "t") filters ≡ ok deleted
unfolding delete_starrocks validate_mutation_identifier bytes_eq has_key build_delete
deletes = refl

inserts_batch : insert_batch_starrocks limits tables (codes "t") (codes "a" ∷ []) rows ≡ ok batch
unfolding insert_batch_starrocks validate_mutation_identifier bytes_eq has_key build_batch_insert
inserts_batch = refl

too_long :
    delete_starrocks (record { max_batch_size = 1; max_sql_length = 10 }) tables (codes "t") filters
    ≡ validation_error err_validation_payload_too_large
unfolding delete_starrocks validate_mutation_identifier bytes_eq has_key build_delete
too_long = refl

hands_update : hand limits tables (update (codes "t") set filters) ≡ ok updated
unfolding hand
hands_update = updates

hand-IsPlain_example :
    IsPlain limits tables updated
    × Permits limits tables (codes "t") (codes "update")
    × Writes limits tables (codes "t") (codes "a" ∷ [])
    × Reads limits tables (codes "t") (codes "id" ∷ [])
hand-IsPlain_example =
    hand-IsPlain limits tables (update (codes "t") set filters) updated hands_update
