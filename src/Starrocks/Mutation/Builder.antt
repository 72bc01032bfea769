-- ===== src/Starrocks/Mutation/Builder.antt =====
-- internal/adapter/starrocks/mutation_sql_builder.go: the statements, and the values of their
-- placeholders.
use mountain_king.Datasource.Request.{
  FilterOperator, eq, neq, gt, gte, lt, lte, like, is_in, not_in, is_null, is_not_null, unknown,
  FilterCondition,
}
use mountain_king.Prelude.{
  ℕ, Bool, true, false, List, [], ◌∷◌, ◌++◌, map, Bytes, codes, if◌then◌else◌, length, replicate,
  concat, join,
}
use mountain_king.Starrocks.Identifier.{quote_identifier}
use mountain_king.Value.{Value, cons, slice, to_list}

pub record MutationSql : Type 0 where
  pub sql : Bytes
  pub params : List Value

-- The loops `for i, x := range xs { if i > 0 { write(", ") }; write(x) }`.
unfoldable pub write_from : Bool → List Bytes → Bytes
write_from started [] = []
write_from started (x ∷ xs) = (if started then codes ", " else []) ++ (x ++ write_from true xs)

unfoldable pub write_list : List Bytes → Bytes
unfolding write_from
write_list xs = write_from false xs

unfoldable pub placeholders : ℕ → List Bytes
placeholders n = replicate n (codes "?")

-- A case of the `switch`: the clauses and the parameters that it appends.
abbrev pub Appended : Type 0
Appended = List Bytes × List Value

-- The cases of IN and NOT IN; `op` is the operator with a blank on each side.
unfoldable pub mutation_in_clause : Bytes → Bytes → Value → Appended
unfolding write_list placeholders to_list
mutation_in_clause col op (slice (cons v vs)) =
    let values = to_list (cons v vs) in
    (
      (col ++ (op ++ (codes "(" ++ (write_list (placeholders (length values)) ++ codes ")")))) ∷ [],
      values,
    )
mutation_in_clause col op value = ((col ++ (op ++ codes "(?)")) ∷ [], value ∷ [])

unfoldable pub mutation_clause_of : Bytes → FilterOperator → Value → Appended
unfolding mutation_in_clause
mutation_clause_of col eq value = ((col ++ codes " = ?") ∷ [], value ∷ [])
mutation_clause_of col neq value = ((col ++ codes " != ?") ∷ [], value ∷ [])
mutation_clause_of col gt value = ((col ++ codes " > ?") ∷ [], value ∷ [])
mutation_clause_of col gte value = ((col ++ codes " >= ?") ∷ [], value ∷ [])
mutation_clause_of col lt value = ((col ++ codes " < ?") ∷ [], value ∷ [])
mutation_clause_of col lte value = ((col ++ codes " <= ?") ∷ [], value ∷ [])
mutation_clause_of col like value = ((col ++ codes " LIKE ?") ∷ [], value ∷ [])
mutation_clause_of col is_in value = mutation_in_clause col (codes " IN ") value
mutation_clause_of col not_in value = mutation_in_clause col (codes " NOT IN ") value
mutation_clause_of col is_null value = ((col ++ codes " IS NULL") ∷ [], [])
mutation_clause_of col is_not_null value = ((col ++ codes " IS NOT NULL") ∷ [], [])
mutation_clause_of col (unknown n) value = ([], [])

unfoldable pub mutation_clauses : List FilterCondition → Appended
unfolding mutation_clause_of quote_identifier
mutation_clauses [] = ([], [])
mutation_clauses (f ∷ fs) =
    let (clauses, params) = mutation_clause_of (quote_identifier f.field) f.operator f.value in
    let (clauses', params') = mutation_clauses fs in (clauses ++ clauses', params ++ params')

unfoldable pub build_mutation_where_clause : List FilterCondition → Bytes × List Value
unfolding mutation_clauses join
build_mutation_where_clause filters =
    let (clauses, params) = mutation_clauses filters in (join clauses (codes " AND "), params)

unfoldable pub build_insert : Bytes → List Bytes → List Value → MutationSql
unfolding write_list placeholders quote_identifier
build_insert table columns values = record {
  sql =
      codes "INSERT INTO "
      ++ (quote_identifier table
          ++ (codes " ("
              ++ (write_list (map quote_identifier columns)
                  ++ (codes ") VALUES ("
                      ++ (write_list (placeholders (length values)) ++ codes ")")))));
  params = values;
}

-- A column of the SET clause.
unfoldable pub assignment : Bytes → Bytes
unfolding quote_identifier
assignment col = quote_identifier col ++ codes " = ?"

unfoldable pub build_update : Bytes → List Bytes → List Value → List FilterCondition → MutationSql
unfolding write_list assignment quote_identifier build_mutation_where_clause
build_update table set_cols set_vals filters =
    let (where_clause, where_params) = build_mutation_where_clause filters in
    record {
      sql =
          codes "UPDATE "
          ++ (quote_identifier table
              ++ (codes " SET "
                  ++ (write_list (map assignment set_cols) ++ (codes " WHERE " ++ where_clause))));
      params = set_vals ++ where_params;
    }

unfoldable pub build_delete : Bytes → List FilterCondition → MutationSql
unfolding quote_identifier build_mutation_where_clause
build_delete table filters =
    let (where_clause, params) = build_mutation_where_clause filters in
    record {
      sql = codes "DELETE FROM " ++ (quote_identifier table ++ (codes " WHERE " ++ where_clause));
      params = params;
    }

-- `rowTemplate`.
unfoldable pub row_template : ℕ → Bytes
unfolding write_list placeholders
row_template num_cols = codes "(" ++ (write_list (placeholders num_cols) ++ codes ")")

unfoldable pub build_batch_insert : Bytes → List Bytes → List (List Value) → MutationSql
unfolding write_list row_template quote_identifier
build_batch_insert table columns rows = record {
  sql =
      codes "INSERT INTO "
      ++ (quote_identifier table
          ++ (codes " ("
              ++ (write_list (map quote_identifier columns)
                  ++ (codes ") VALUES "
                      ++ write_list (replicate (length rows) (row_template (length columns)))))));
  params = concat rows;
}
