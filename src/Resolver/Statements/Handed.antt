-- ===== src/Resolver/Statements/Handed.antt =====
-- What is handed to the data source.
use mountain_king.Datasource.Request.{FilterCondition}
use mountain_king.Errors.{ok, >>=-eq-ok}
use mountain_king.Prelude.{
  ◌≡◌, ◌≤◌, ◌∙◌, sym, subst, true, some, List, map, length, length-map, arith, Bytes, codes, [],
}
use mountain_king.Resolver.Statements.{
  Write, insert, update, delete, insert_batch, hand, ColumnValueInput, built, insert_starrocks,
  update_starrocks, delete_starrocks, insert_batch_starrocks,
}
use mountain_king.Starrocks.Fragment.{IsFragment}
use mountain_king.Starrocks.Mutation.{
  MutationValidator, validate_insert_input, validate_update_input, validate_delete_input,
  validate_batch_insert_input, validate_sql_length,
}
use mountain_king.Starrocks.Mutation.Builder.{MutationSql}
use mountain_king.Starrocks.Mutation.Placeholders.{
  build_insert-IsFragment, build_update-IsFragment, build_delete-IsFragment,
  build_batch_insert-IsFragment,
}
use mountain_king.Starrocks.Query.{Columns}
use mountain_king.Starrocks.Writable.{
  WritableTableConfig, WritableTableValidator, lookup_table, has_key, validate_writable,
  validate_operation, validate_write_columns, validate_filter_columns,
}
use mountain_king.Starrocks.Writable.Subset.{
  AllIn, operation-found, write_columns-found, filter_columns-AllIn,
}
use mountain_king.Value.{Value}

abbrev pub table_of : Write → Bytes
table_of (insert table values) = table
table_of (update table set filters) = table
table_of (delete table filters) = table
table_of (insert_batch table columns rows) = table

-- The operation that a write needs in the whitelist.
abbrev pub operation_of : Write → Bytes
operation_of (insert table values) = codes "insert"
operation_of (update table set filters) = codes "update"
operation_of (delete table filters) = codes "delete"
operation_of (insert_batch table columns rows) = codes "insert"

-- The columns that a write sets.
abbrev pub written : Write → List Bytes
written (insert table values) = map (λ cv. cv.column) values
written (update table set filters) = map (λ cv. cv.column) set
written (delete table filters) = []
written (insert_batch table columns rows) = columns

module _ (v : MutationValidator) (w : WritableTableValidator) where
  -- The text has one placeholder for each parameter and no byte but those of plain SQL, and it is not
  -- too long.
  pub record IsPlain (s : MutationSql) : Type 0 where
    pub fragment : IsFragment (length s.params) s.sql
    pub short : length s.sql ≤ v.max_sql_length

  -- The table is in the whitelist of writes, with the operation.
  abbrev pub Permits : Bytes → Bytes → Type 0
  Permits table operation =
      (cfg : WritableTableConfig) × (lookup_table table w.writable_tables ≡ some cfg)
      × (has_key operation cfg.allowed_operations ≡ true)

  -- The table is in the whitelist of writes, with the columns.
  abbrev pub Writes : Bytes → List Bytes → Type 0
  Writes table names =
      (cfg : WritableTableConfig) × (lookup_table table w.writable_tables ≡ some cfg)
      × AllIn (λ c. has_key c cfg.columns) names

  -- The table is in the whitelist of reads, with the columns.
  abbrev pub Reads : Bytes → List Bytes → Type 0
  Reads table names = (cols : Columns) × (w.allowed_tables table ≡ some cols) × AllIn cols names

  built-IsPlain :
      (r s : MutationSql) → IsFragment (length r.params) r.sql → built v w r ≡ ok s → IsPlain s
  unfolding built validate_sql_length
  built-IsPlain r s p h =
      let same : r ≡ s = ground arith in
      let short : length r.sql ≤ v.max_sql_length = ground arith in
      subst IsPlain same (record { fragment = p; short = short })

  insert_starrocks-IsPlain :
      (table : Bytes) (values : List ColumnValueInput) (s : MutationSql)
      → insert_starrocks v w table values ≡ ok s
      → IsPlain s × Permits table (codes "insert") × Writes table (map (λ cv. cv.column) values)
  unfolding insert_starrocks
  insert_starrocks-IsPlain table values s h =
      let columns = map (λ (cv : ColumnValueInput). cv.column) values in
      let vals = map (λ (cv : ColumnValueInput). cv.value) values in
      let (_, valid, h₁) = >>=-eq-ok (validate_insert_input table columns vals) _ s h in
      let (_, listed, h₂) = >>=-eq-ok (validate_writable w table) _ s h₁ in
      let (_, permitted, h₃) = >>=-eq-ok (validate_operation w table (codes "insert")) _ s h₂ in
      let (_, written, h₄) = >>=-eq-ok (validate_write_columns w table columns) _ s h₃ in
      (
        built-IsPlain _ s (build_insert-IsFragment table columns vals valid) h₄,
        operation-found w table (codes "insert") permitted,
        write_columns-found w table columns written,
      )

  update_starrocks-IsPlain :
      (table : Bytes) (set : List ColumnValueInput) (filters : List FilterCondition)
      (s : MutationSql)
      → update_starrocks v w table set filters ≡ ok s
      → IsPlain s
        × Permits table (codes "update")
        × Writes table (map (λ cv. cv.column) set)
        × Reads table (map (λ f. f.field) filters)
  unfolding update_starrocks
  update_starrocks-IsPlain table set filters s h =
      let cols = map (λ (cv : ColumnValueInput). cv.column) set in
      let vals = map (λ (cv : ColumnValueInput). cv.value) set in
      let fields = map (λ (f : FilterCondition). f.field) filters in
      let (_, valid, h₁) = >>=-eq-ok (validate_update_input table cols filters) _ s h in
      let (_, listed, h₂) = >>=-eq-ok (validate_writable w table) _ s h₁ in
      let (_, permitted, h₃) = >>=-eq-ok (validate_operation w table (codes "update")) _ s h₂ in
      let (_, written, h₄) = >>=-eq-ok (validate_write_columns w table cols) _ s h₃ in
      let (_, readable, h₅) = >>=-eq-ok (validate_filter_columns w table fields) _ s h₄ in
      let same : length cols ≡ length vals = length-map set _ ∙ sym (length-map set _) in
      (
        built-IsPlain _ s (build_update-IsFragment table cols vals filters valid same) h₅,
        operation-found w table (codes "update") permitted,
        write_columns-found w table cols written,
        filter_columns-AllIn w table fields readable,
      )

  delete_starrocks-IsPlain :
      (table : Bytes) (filters : List FilterCondition) (s : MutationSql)
      → delete_starrocks v w table filters ≡ ok s
      → IsPlain s × Permits table (codes "delete") × Reads table (map (λ f. f.field) filters)
  unfolding delete_starrocks
  delete_starrocks-IsPlain table filters s h =
      let fields = map (λ (f : FilterCondition). f.field) filters in
      let (_, valid, h₁) = >>=-eq-ok (validate_delete_input table filters) _ s h in
      let (_, listed, h₂) = >>=-eq-ok (validate_writable w table) _ s h₁ in
      let (_, permitted, h₃) = >>=-eq-ok (validate_operation w table (codes "delete")) _ s h₂ in
      let (_, readable, h₄) = >>=-eq-ok (validate_filter_columns w table fields) _ s h₃ in
      (
        built-IsPlain _ s (build_delete-IsFragment table filters valid) h₄,
        operation-found w table (codes "delete") permitted,
        filter_columns-AllIn w table fields readable,
      )

  insert_batch_starrocks-IsPlain :
      (table : Bytes) (columns : List Bytes) (rows : List (List Value)) (s : MutationSql)
      → insert_batch_starrocks v w table columns rows ≡ ok s
      → IsPlain s × Permits table (codes "insert") × Writes table columns
  unfolding insert_batch_starrocks
  insert_batch_starrocks-IsPlain table columns rows s h =
      let (_, valid, h₁) = >>=-eq-ok (validate_batch_insert_input v table columns rows) _ s h in
      let (_, listed, h₂) = >>=-eq-ok (validate_writable w table) _ s h₁ in
      let (_, permitted, h₃) = >>=-eq-ok (validate_operation w table (codes "insert")) _ s h₂ in
      let (_, written, h₄) = >>=-eq-ok (validate_write_columns w table columns) _ s h₃ in
      (
        built-IsPlain _ s (build_batch_insert-IsFragment v table columns rows valid) h₄,
        operation-found w table (codes "insert") permitted,
        write_columns-found w table columns written,
      )

  -- The columns that a write filters by may be read.
  abbrev pub FiltersReadable : Write → Type 0
  FiltersReadable (insert table values) = Unit
  FiltersReadable (update table set filters) = Reads table (map (λ f. f.field) filters)
  FiltersReadable (delete table filters) = Reads table (map (λ f. f.field) filters)
  FiltersReadable (insert_batch table columns rows) = Unit

  -- Whatever write is handed to the data source, its text is plain, with one placeholder for each
  -- parameter, and not too long; the table is in the whitelist of writes with its operation and with
  -- every column that it sets; and the columns that it filters by are in the whitelist of reads.
  pub hand-IsPlain :
      (write : Write) (s : MutationSql)
      → hand v w write ≡ ok s
      → IsPlain s
        × Permits (table_of write) (operation_of write)
        × Writes (table_of write) (written write)
        × FiltersReadable write
  unfolding hand
  hand-IsPlain (insert table values) s h =
      let (plain, permitted, writes) = insert_starrocks-IsPlain table values s h in
      (plain, permitted, writes, tt)
  hand-IsPlain (update table set filters) s h = update_starrocks-IsPlain table set filters s h
  hand-IsPlain (delete table filters) s h =
      let (plain, (cfg, found, known), readable) = delete_starrocks-IsPlain table filters s h in
      (plain, (cfg, found, known), (cfg, found, tt), readable)
  hand-IsPlain (insert_batch table columns rows) s h =
      let (plain, permitted, writes) = insert_batch_starrocks-IsPlain table columns rows s h in
      (plain, permitted, writes, tt)
