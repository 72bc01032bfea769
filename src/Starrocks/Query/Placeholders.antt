-- ===== src/Starrocks/Query/Placeholders.antt =====
-- What the builder returns: text with one placeholder for each parameter, over the allowed columns.
use mountain_king.Datasource.Request.{QueryRequest}
use mountain_king.Errors.{ok, >>=-eq-ok, ok-injective}
use mountain_king.Prelude.{◌≡◌, refl, subst, arith, Bytes, codes, length}
use mountain_king.Starrocks.Fragment.{
  IsFragment, append-IsFragment, codes-IsFragment, holes, validate_identifier-IsFragment,
  quote_identifier-IsFragment,
}
use mountain_king.Starrocks.Fragment.Lists.{cast}
use mountain_king.Starrocks.Identifier.{quote_identifier}
use mountain_king.Starrocks.Query.{
  SqlQueryBuilder, Columns, Sql, validate_table, build_select_clause, build_where_clause,
  build_order_by_clause, build_limit_clause, build, build_count,
}
use mountain_king.Starrocks.Query.Clauses.{
  IsSql, select-IsFragment, where-IsFragment, order_by-IsFragment, optional-IsFragment,
}
use mountain_king.Starrocks.Query.Limit.{HasCounts, limit-IsFragment}

table-IsFragment :
    (b : SqlQueryBuilder) (table : Bytes) (cols : Columns)
    → validate_table b table ≡ ok cols
    → IsFragment 0 (quote_identifier table)
unfolding validate_table
table-IsFragment b table cols h =
    quote_identifier-IsFragment table (validate_identifier-IsFragment table (ground arith))

-- A SELECT that the builder returns holds one placeholder for each parameter, in plain text, if the
-- numbers of its page are not negative.
pub build-IsSql :
    (b : SqlQueryBuilder) (req : QueryRequest) (table : Bytes) (r : Sql)
    → build b req table ≡ ok r
    → HasCounts req.pagination
    → IsFragment (length r.1) r.0
unfolding build holes
build-IsSql b req table r h counts =
    let (cols, table_ok, h₁) = >>=-eq-ok (validate_table b table) _ r h in
    let (select, select_ok, h₂) = >>=-eq-ok (build_select_clause cols req.fields) _ r h₁ in
    let (wh, where_ok, h₃) = >>=-eq-ok (build_where_clause cols req.filters) _ r h₂ in
    let (order, order_ok, e) = >>=-eq-ok (build_order_by_clause cols req.order_by) _ r h₃ in
    subst IsSql (ok-injective e) (
      cast (omega arith) (
        append-IsFragment (codes-IsFragment "SELECT " 0 refl) (
          append-IsFragment (select-IsFragment cols req.fields select select_ok) (
            append-IsFragment (codes-IsFragment " FROM " 0 refl) (
              append-IsFragment (table-IsFragment b table cols table_ok) (
                append-IsFragment
                  (optional-IsFragment (codes " WHERE ") wh.0 (codes-IsFragment " WHERE " 0 refl)
                    (where-IsFragment cols req.filters wh where_ok))
                  (append-IsFragment
                    (optional-IsFragment (codes " ORDER BY ") order
                      (codes-IsFragment " ORDER BY " 0 refl)
                      (order_by-IsFragment cols req.order_by order order_ok))
                    (optional-IsFragment (codes " ") (build_limit_clause req.pagination)
                      (codes-IsFragment " " 0 refl) (limit-IsFragment req.pagination counts)))))))))

-- A COUNT query that the builder returns holds one placeholder for each parameter, in plain text.
pub build_count-IsSql :
    (b : SqlQueryBuilder) (req : QueryRequest) (table : Bytes) (r : Sql)
    → build_count b req table ≡ ok r
    → IsFragment (length r.1) r.0
unfolding build_count holes
build_count-IsSql b req table r h =
    let (cols, table_ok, h₁) = >>=-eq-ok (validate_table b table) _ r h in
    let (wh, where_ok, e) = >>=-eq-ok (build_where_clause cols req.filters) _ r h₁ in
    subst IsSql (ok-injective e) (
      cast (omega arith) (
        append-IsFragment (codes-IsFragment "SELECT COUNT(*) FROM " 0 refl) (
          append-IsFragment (table-IsFragment b table cols table_ok) (
            optional-IsFragment (codes " WHERE ") wh.0 (codes-IsFragment " WHERE " 0 refl)
              (where-IsFragment cols req.filters wh where_ok)))))
