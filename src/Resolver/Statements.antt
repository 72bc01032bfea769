-- ===== src/Resolver/Statements.antt =====
-- internal/graphql/resolver/mutation.resolvers.go: the two functions of a plan, `validate` and
-- `buildAndExecute`, up to `ExecuteWrite`: a result is the statement that is handed to the data source,
-- an error that of the check that refuses.
pub mod Handed
mod Tests
use mountain_king.Datasource.Request.{FilterCondition}
use mountain_king.Errors.{Result, ok, ◌>>=◌, ◌>>◌}
use mountain_king.Prelude.{List, map, Bytes, codes}
use mountain_king.Starrocks.Mutation.{
  MutationValidator, validate_insert_input, validate_update_input, validate_delete_input,
  validate_batch_insert_input, validate_sql_length,
}
use mountain_king.Starrocks.Mutation.Builder.{
  MutationSql, build_insert, build_update, build_delete, build_batch_insert,
}
use mountain_king.Starrocks.Writable.{
  WritableTableValidator, validate_writable, validate_operation, validate_write_columns,
  validate_filter_columns,
}
use mountain_king.Value.{Value}

-- A column and its value.
pub record ColumnValueInput : Type 0 where
  pub column : Bytes
  pub value : Value

pub data Write : Type 0 where
  insert : Bytes → List ColumnValueInput → Write
  update : Bytes → List ColumnValueInput → List FilterCondition → Write
  delete : Bytes → List FilterCondition → Write
  insert_batch : Bytes → List Bytes → List (List Value) → Write

module _ (v : MutationValidator) (w : WritableTableValidator) where
  -- The SQL is built, and its length checked.
  unfoldable pub built : MutationSql → Result MutationSql
  unfolding validate_sql_length
  built result = do validate_sql_length v result.sql; ok result

  unfoldable pub insert_starrocks : Bytes → List ColumnValueInput → Result MutationSql
  unfolding validate_insert_input validate_writable validate_operation validate_write_columns built
  insert_starrocks table values = do
    let columns = map (λ cv. cv.column) values
    let vals = map (λ cv. cv.value) values
    validate_insert_input table columns vals
    validate_writable w table
    validate_operation w table (codes "insert")
    validate_write_columns w table columns
    built (build_insert table columns vals)

  unfoldable pub update_starrocks :
      Bytes → List ColumnValueInput → List FilterCondition → Result MutationSql
  unfolding validate_update_input validate_writable validate_operation validate_write_columns
      validate_filter_columns built
  update_starrocks table set filters = do
    let set_cols = map (λ cv. cv.column) set
    let set_vals = map (λ cv. cv.value) set
    validate_update_input table set_cols filters
    validate_writable w table
    validate_operation w table (codes "update")
    validate_write_columns w table set_cols
    validate_filter_columns w table (map (λ f. f.field) filters)
    built (build_update table set_cols set_vals filters)

  unfoldable pub delete_starrocks : Bytes → List FilterCondition → Result MutationSql
  unfolding validate_delete_input validate_writable validate_operation validate_filter_columns built
  delete_starrocks table filters = do
    validate_delete_input table filters
    validate_writable w table
    validate_operation w table (codes "delete")
    validate_filter_columns w table (map (λ f. f.field) filters)
    built (build_delete table filters)

  unfoldable pub insert_batch_starrocks :
      Bytes → List Bytes → List (List Value) → Result MutationSql
  unfolding validate_batch_insert_input validate_writable validate_operation validate_write_columns
      built
  insert_batch_starrocks table columns rows = do
    validate_batch_insert_input v table columns rows
    validate_writable w table
    validate_operation w table (codes "insert")
    validate_write_columns w table columns
    built (build_batch_insert table columns rows)

  -- The writes of the schema, each with its arguments.
  unfoldable pub hand : Write → Result MutationSql
  hand (insert table values) = insert_starrocks table values
  hand (update table set filters) = update_starrocks table set filters
  hand (delete table filters) = delete_starrocks table filters
  hand (insert_batch table columns rows) = insert_batch_starrocks table columns rows
