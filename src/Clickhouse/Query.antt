-- ===== src/Clickhouse/Query.antt =====
-- internal/adapter/clickhouse/query_builder.go, and `ValidateIdentifier` of whitelist.go. The package
-- repeats that of StarRocks, with a narrower test of identifiers, a bound on the values of IN and
-- clamped pages; what is the same text in both (`quoteIdentifier`, `decodeCursor`, and how the two
-- limits and the two offsets of a page are chosen) is taken from there.
pub mod Refines
pub mod Safe
mod Tests
use mountain_king.Datasource.Request.{
  FilterOperator, eq, neq, gt, gte, lt, lte, like, is_in, not_in, is_null, is_not_null, unknown,
  FilterCondition, SortDirection, asc, desc, OrderByClause, PaginationParams, QueryRequest,
}
use mountain_king.Errors.{
  Result, ok, err, ◌>>=◌, ◌>>◌, err_validation_invalid_field, err_validation_invalid_table,
  validation_error,
}
use mountain_king.Prelude.{
  ℕ, zero, suc, Bool, true, false, not, Option, none, some, List, [], ◌∷◌, ◌++◌, String, Bytes,
  codes, if◌then◌else◌, length, replicate, join, ltb,
}
use mountain_king.Prelude.Decimal.{format_int}
use mountain_king.Prelude.Int.{ℤ, pos, negsuc}
use mountain_king.Starrocks.Identifier.{mutation_identifier_re, quote_identifier}
use mountain_king.Starrocks.Query.{
  Columns, SqlQueryBuilder, Sql, limit_of, offset_of, keyword, optional, direction,
}
use mountain_king.Value.{Value, Items, nil, cons, slice, to_list}

-- `^[a-zA-Z_][a-zA-Z0-9_]*$`, the expression of the writes to StarRocks.
unfoldable pub validate_identifier : Bytes → Result (Unit {0})
unfolding mutation_identifier_re
validate_identifier [] = validation_error err_validation_invalid_field
validate_identifier (c ∷ name) =
    if not (mutation_identifier_re (c ∷ name))
    then validation_error err_validation_invalid_field
    else ok tt

unfoldable pub validate_table : SqlQueryBuilder → Bytes → Result Columns
unfolding validate_identifier
validate_table b table = do
  validate_identifier table
  elim (b.allowed_tables table) [
    | none ↦ validation_error err_validation_invalid_table
    | some cols ↦ ok cols
  ]

-- `ValidateIdentifier(f)` and `allowedCols[f]`.
unfoldable pub check_column : Columns → Bytes → Result (Unit {0})
unfolding validate_identifier
check_column cols f = do
  validate_identifier f
  if not (cols f) then validation_error err_validation_invalid_field else ok tt

unfoldable pub select_parts : Columns → List Bytes → Result (List Bytes)
unfolding check_column quote_identifier
select_parts cols [] = ok []
select_parts cols (f ∷ fs) = do
  check_column cols f
  parts ← select_parts cols fs
  ok (quote_identifier f ∷ parts)

unfoldable pub build_select_clause : Columns → List Bytes → Result Bytes
unfolding select_parts join
build_select_clause cols [] = ok (codes "*")
build_select_clause cols (f ∷ fs) = do
  parts ← select_parts cols (f ∷ fs)
  ok (join parts (codes ", "))

abbrev pub max_in_values : ℕ
max_in_values = 10000

unfoldable pub build_in_clause : Bytes → Value → Bool → Result Sql
unfolding join to_list
build_in_clause col (slice nil) negate = validation_error err_validation_invalid_field
build_in_clause col (slice (cons v vs)) negate =
    let values = to_list (cons v vs) in
    let op = if negate then codes "NOT IN" else codes "IN" in
    if ltb max_in_values (length values)
    then validation_error err_validation_invalid_field
    else ok (
      col
          ++ (codes " "
              ++ (op
                  ++ (codes " ("
                      ++ (join (replicate (length values) (codes "?")) (codes ", ")
                          ++ codes ")")))),
      values,
    )
build_in_clause col value negate = validation_error err_validation_invalid_field

-- The `switch f.Operator`.
unfoldable pub filter_clause : Bytes → FilterOperator → Value → Result Sql
unfolding build_in_clause
filter_clause col eq value = ok (col ++ codes " = ?", value ∷ [])
filter_clause col neq value = ok (col ++ codes " != ?", value ∷ [])
filter_clause col gt value = ok (col ++ codes " > ?", value ∷ [])
filter_clause col gte value = ok (col ++ codes " >= ?", value ∷ [])
filter_clause col lt value = ok (col ++ codes " < ?", value ∷ [])
filter_clause col lte value = ok (col ++ codes " <= ?", value ∷ [])
filter_clause col like value = ok (col ++ codes " LIKE ?", value ∷ [])
filter_clause col is_in value = build_in_clause col value false
filter_clause col not_in value = build_in_clause col value true
filter_clause col is_null value = ok (col ++ codes " IS NULL", [])
filter_clause col is_not_null value = ok (col ++ codes " IS NOT NULL", [])
filter_clause col (unknown n) value = validation_error err_validation_invalid_field

unfoldable pub where_parts : Columns → List FilterCondition → Result (List Bytes × List Value)
unfolding check_column filter_clause quote_identifier
where_parts cols [] = ok ([], [])
where_parts cols (f ∷ fs) = do
  check_column cols f.field
  (clause, params) ← filter_clause (quote_identifier f.field) f.operator f.value
  (clauses, params') ← where_parts cols fs
  ok (clause ∷ clauses, params ++ params')

unfoldable pub build_where_clause : Columns → List FilterCondition → Result Sql
unfolding where_parts join
build_where_clause cols [] = ok ([], [])
build_where_clause cols (f ∷ fs) = do
  (clauses, params) ← where_parts cols (f ∷ fs)
  ok (join clauses (codes " AND "), params)

unfoldable pub order_by_parts : Columns → List OrderByClause → Result (List Bytes)
unfolding check_column quote_identifier direction
order_by_parts cols [] = ok []
order_by_parts cols (o ∷ os) = do
  check_column cols o.field
  parts ← order_by_parts cols os
  ok ((quote_identifier o.field ++ (codes " " ++ direction o.direction)) ∷ parts)

unfoldable pub build_order_by_clause : Columns → List OrderByClause → Result Bytes
unfolding order_by_parts join
build_order_by_clause cols [] = ok []
build_order_by_clause cols (o ∷ os) = do
  parts ← order_by_parts cols (o ∷ os)
  ok (join parts (codes ", "))

abbrev pub max_query_limit : ℕ
max_query_limit = 100000

unfoldable pub clamp_limit : ℤ → ℤ
clamp_limit (negsuc n) = pos 0
clamp_limit (pos n) = if ltb max_query_limit n then pos max_query_limit else pos n

unfoldable pub clamp_offset : ℤ → ℤ
clamp_offset (negsuc n) = pos 0
clamp_offset (pos n) = pos n

abbrev pub map_option : (ℤ → ℤ) → Option ℤ → Option ℤ
map_option f none = none
map_option f (some n) = some (f n)

unfoldable pub build_limit_clause : Option PaginationParams → Bytes
unfolding limit_of offset_of keyword format_int join clamp_limit clamp_offset
build_limit_clause none = []
build_limit_clause (some p) =
    join
      (keyword "LIMIT " (map_option clamp_limit (limit_of p))
        ++ keyword "OFFSET " (map_option clamp_offset (offset_of p)))
      (codes " ")

unfoldable pub build : SqlQueryBuilder → QueryRequest → Bytes → Result Sql
unfolding validate_table build_select_clause build_where_clause build_order_by_clause
    build_limit_clause optional
build b req table = do
  cols ← validate_table b table
  select_clause ← build_select_clause cols req.fields
  (where_clause, params) ← build_where_clause cols req.filters
  order_by_clause ← build_order_by_clause cols req.order_by
  let limit_clause = build_limit_clause req.pagination
  ok (
    codes "SELECT "
        ++ (select_clause
            ++ (codes " FROM "
                ++ (quote_identifier table
                    ++ (optional (codes " WHERE ") where_clause
                        ++ (optional (codes " ORDER BY ") order_by_clause
                            ++ optional (codes " ") limit_clause))))),
    params,
  )

unfoldable pub build_count : SqlQueryBuilder → QueryRequest → Bytes → Result Sql
unfolding validate_table build_where_clause optional
build_count b req table = do
  cols ← validate_table b table
  (where_clause, params) ← build_where_clause cols req.filters
  ok (
    codes "SELECT COUNT(*) FROM "
        ++ (quote_identifier table ++ optional (codes " WHERE ") where_clause),
    params,
  )
