-- ===== src/Starrocks/Mutation/Placeholders.antt =====
-- The SQL of a validated write has one placeholder for each parameter, and no byte that a client
-- chose but the letters, digits and underscores of identifiers.
use mountain_king.Datasource.Request.{FilterCondition}
use mountain_king.Errors.{
  Code, >>-eq-ok, err_validation_invalid_table, err_validation_invalid_field, ok,
}
use mountain_king.Prelude.{
  ℕ, ◌*◌, ◌≡◌, refl, List, [], ◌∷◌, map, arith, Bytes, All, length, length-append, concat,
}
use mountain_king.Starrocks.Fragment.{
  IsFragment, append-IsFragment, codes-IsFragment, holes, validate_mutation_identifier-IsFragment,
  quote_identifier-IsFragment,
}
use mountain_king.Starrocks.Fragment.Lists.{cast, replicate-AreFragments, map-AreFragments}
use mountain_king.Starrocks.Identifier.{quote_identifier}
use mountain_king.Starrocks.Mutation.{
  MutationValidator, check_identifier, check_columns, check_filters, check_rows,
  validate_insert_input, validate_update_input, validate_delete_input, validate_batch_insert_input,
}
use mountain_king.Starrocks.Mutation.Builder.{
  write_list, build_mutation_where_clause, build_insert, assignment, build_update, build_delete,
  row_template, build_batch_insert,
}
use mountain_king.Value.{Value}
use mountain_king.Starrocks.Mutation.Clauses.{
  write_list-IsFragment, one_of_each, where_clause-IsFragment,
}

check_identifier-IsFragment :
    (code : Code) (name : Bytes) → check_identifier code name ≡ ok tt → IsFragment 0 name
unfolding check_identifier
check_identifier-IsFragment code name h =
    validate_mutation_identifier-IsFragment name (ground arith)

check_columns-All : (cols : List Bytes) → check_columns cols ≡ ok tt → All (IsFragment 0) cols
unfolding check_columns
check_columns-All [] h = tt
check_columns-All (col ∷ cols) h =
    let (first, others) =
      >>-eq-ok (check_identifier err_validation_invalid_field col) (check_columns cols) h in
    (check_identifier-IsFragment _ col first, check_columns-All cols others)

check_filters-All :
    (fs : List FilterCondition) → check_filters fs ≡ ok tt → All (λ f. IsFragment 0 f.field) fs
unfolding check_filters
check_filters-All [] h = tt
check_filters-All (f ∷ fs) h =
    let (first, others) =
      >>-eq-ok (check_identifier err_validation_invalid_field f.field) (check_filters fs) h in
    (check_identifier-IsFragment _ f.field first, check_filters-All fs others)

check_rows-length :
    (width : ℕ) (rows : List (List Value))
    → check_rows width rows ≡ ok tt
    → length (concat rows) ≡ length rows * width
unfolding check_rows
check_rows-length width [] h = omega arith
check_rows-length width (row ∷ rows) h =
    grind (arith, check_rows-length width rows, length-append row (concat rows))

-- The pieces that the statements have in common.
table-IsFragment :
    (table : Bytes)
    → check_identifier err_validation_invalid_table table ≡ ok tt
    → IsFragment 0 (quote_identifier table)
table-IsFragment table h = quote_identifier-IsFragment table (check_identifier-IsFragment _ table h)

columns-IsFragment :
    (cols : List Bytes)
    → check_columns cols ≡ ok tt
    → IsFragment 0 (write_list (map quote_identifier cols))
columns-IsFragment cols h = cast (omega arith) (
    write_list-IsFragment (
      map-AreFragments quote_identifier 0 quote_identifier-IsFragment cols
        (check_columns-All cols h)))

insert_checks :
    (table : Bytes) (columns : List Bytes) (values : List Value)
    → validate_insert_input table columns values ≡ ok tt
    → (check_identifier err_validation_invalid_table table ≡ ok tt)
      × (check_columns columns ≡ ok tt)
unfolding validate_insert_input
insert_checks table columns values h = ground arith

-- A validated INSERT holds one placeholder for each parameter, in plain text.
pub build_insert-IsFragment :
    (table : Bytes) (columns : List Bytes) (values : List Value)
    → validate_insert_input table columns values ≡ ok tt
    → IsFragment
        (length (build_insert table columns values).params)
        (build_insert table columns values).sql
unfolding build_insert holes
build_insert-IsFragment table columns values h =
    let (table_ok, columns_ok) = insert_checks table columns values h in
    cast (omega arith) (
      append-IsFragment (codes-IsFragment "INSERT INTO " 0 refl) (
        append-IsFragment (table-IsFragment table table_ok) (
          append-IsFragment (codes-IsFragment " (" 0 refl) (
            append-IsFragment (columns-IsFragment columns columns_ok) (
              append-IsFragment (codes-IsFragment ") VALUES (" 0 refl) (
                append-IsFragment (write_list-IsFragment (one_of_each (length values)))
                  (codes-IsFragment ")" 0 refl)))))))

update_checks :
    (table : Bytes) (cols : List Bytes) (fs : List FilterCondition)
    → validate_update_input table cols fs ≡ ok tt
    → (check_identifier err_validation_invalid_table table ≡ ok tt)
      × (check_columns cols ≡ ok tt)
      × (check_filters fs ≡ ok tt)
unfolding validate_update_input
update_checks table cols fs h = ground arith

assignment-IsFragment : (s : Bytes) → IsFragment 0 s → IsFragment 1 (assignment s)
unfolding assignment holes
assignment-IsFragment s p =
    cast (omega arith)
      (append-IsFragment (quote_identifier-IsFragment s p) (codes-IsFragment " = ?" 1 refl))

-- A validated UPDATE that is given one value for each SET column holds one placeholder for each
-- parameter, in plain text.
pub build_update-IsFragment :
    (table : Bytes) (cols : List Bytes) (vals : List Value) (fs : List FilterCondition)
    → validate_update_input table cols fs ≡ ok tt
    → length cols ≡ length vals
    → IsFragment
        (length (build_update table cols vals fs).params)
        (build_update table cols vals fs).sql
unfolding build_update holes
build_update-IsFragment table cols vals fs h e =
    let (table_ok, columns_ok, filters_ok) = update_checks table cols fs h in
    let set_list = write_list-IsFragment (
      map-AreFragments assignment 1 assignment-IsFragment cols
        (check_columns-All cols columns_ok)) in
    cast (omega (arith, length-append vals (build_mutation_where_clause fs).1)) (
      append-IsFragment (codes-IsFragment "UPDATE " 0 refl) (
        append-IsFragment (table-IsFragment table table_ok) (
          append-IsFragment (codes-IsFragment " SET " 0 refl) (
            append-IsFragment set_list (
              append-IsFragment (codes-IsFragment " WHERE " 0 refl)
                (where_clause-IsFragment fs (check_filters-All fs filters_ok)))))))

delete_checks :
    (table : Bytes) (fs : List FilterCondition)
    → validate_delete_input table fs ≡ ok tt
    → (check_identifier err_validation_invalid_table table ≡ ok tt) × (check_filters fs ≡ ok tt)
unfolding validate_delete_input
delete_checks table fs h = ground arith

-- A validated DELETE holds one placeholder for each parameter, in plain text.
pub build_delete-IsFragment :
    (table : Bytes) (fs : List FilterCondition)
    → validate_delete_input table fs ≡ ok tt
    → IsFragment (length (build_delete table fs).params) (build_delete table fs).sql
unfolding build_delete holes
build_delete-IsFragment table fs h =
    let (table_ok, filters_ok) = delete_checks table fs h in
    cast (omega arith) (
      append-IsFragment (codes-IsFragment "DELETE FROM " 0 refl) (
        append-IsFragment (table-IsFragment table table_ok) (
          append-IsFragment (codes-IsFragment " WHERE " 0 refl)
            (where_clause-IsFragment fs (check_filters-All fs filters_ok)))))

batch_checks :
    (v : MutationValidator) (table : Bytes) (cols : List Bytes) (rows : List (List Value))
    → validate_batch_insert_input v table cols rows ≡ ok tt
    → (check_identifier err_validation_invalid_table table ≡ ok tt)
      × (check_columns cols ≡ ok tt)
      × (check_rows (length cols) rows ≡ ok tt)
unfolding validate_batch_insert_input
batch_checks v table cols rows h = ground arith

row_template-IsFragment : (n : ℕ) → IsFragment n (row_template n)
unfolding row_template holes
row_template-IsFragment n = cast (omega arith) (
    append-IsFragment (codes-IsFragment "(" 0 refl)
      (append-IsFragment (write_list-IsFragment (one_of_each n)) (codes-IsFragment ")" 0 refl)))

-- A validated batch INSERT holds one placeholder for each parameter, in plain text.
pub build_batch_insert-IsFragment :
    (v : MutationValidator) (table : Bytes) (cols : List Bytes) (rows : List (List Value))
    → validate_batch_insert_input v table cols rows ≡ ok tt
    → IsFragment
        (length (build_batch_insert table cols rows).params)
        (build_batch_insert table cols rows).sql
unfolding build_batch_insert holes
build_batch_insert-IsFragment v table cols rows h =
    let (table_ok, columns_ok, rows_ok) = batch_checks v table cols rows h in
    let row_list =
      write_list-IsFragment
        (replicate-AreFragments (length rows) (row_template-IsFragment (length cols))) in
    cast (omega (arith, check_rows-length (length cols) rows rows_ok)) (
      append-IsFragment (codes-IsFragment "INSERT INTO " 0 refl) (
        append-IsFragment (table-IsFragment table table_ok) (
          append-IsFragment (codes-IsFragment " (" 0 refl) (
            append-IsFragment (columns-IsFragment cols columns_ok)
              (append-IsFragment (codes-IsFragment ") VALUES " 0 refl) row_list)))))
