-- ===== src/Starrocks/Query/Whitelist.antt =====
-- What the builder accepts names allowed tables and columns only.
use mountain_king.Datasource.Request.{FilterCondition, OrderByClause, QueryRequest}
use mountain_king.Errors.{ok, >>=-eq-ok, ok-injective}
use mountain_king.Prelude.{
  ◌≡◌, ap, ◌∙◌, sym, true, some, List, [], ◌∷◌, ◌++◌, arith, Bytes, All, codes, join, map,
}
use mountain_king.Starrocks.Identifier.{quote_identifier}
use mountain_king.Value.{Value}
use mountain_king.Starrocks.Query.{
  Columns, SqlQueryBuilder, Sql, validate_table, check_column, select_parts, build_select_clause,
  filter_clause, where_parts, build_where_clause, order_by_parts, build_order_by_clause, build,
  optional, build_limit_clause,
}

check_column-allowed : (cols : Columns) (f : Bytes) → check_column cols f ≡ ok tt → cols f ≡ true
unfolding check_column
check_column-allowed cols f h = ground arith

module _ (cols : Columns) where
  select_parts-allowed :
      (fs parts : List Bytes) → select_parts cols fs ≡ ok parts → All (λ f. cols f ≡ true) fs
  unfolding select_parts
  select_parts-allowed [] parts h = tt
  select_parts-allowed (f ∷ fs) parts h =
      let (_, valid, h') = >>=-eq-ok (check_column cols f) _ parts h in
      let (rest, found, _) = >>=-eq-ok (select_parts cols fs) _ parts h' in
      (check_column-allowed cols f valid, select_parts-allowed fs rest found)

  select-allowed :
      (fs : List Bytes) (s : Bytes)
      → build_select_clause cols fs ≡ ok s
      → All (λ f. cols f ≡ true) fs
  unfolding build_select_clause
  select-allowed [] s h = tt
  select-allowed (f ∷ fs) s h =
      let (parts, found, _) = >>=-eq-ok (select_parts cols (f ∷ fs)) _ s h in
      select_parts-allowed (f ∷ fs) parts found

  where_parts-allowed :
      (fs : List FilterCondition) (r : List Bytes × List Value)
      → where_parts cols fs ≡ ok r
      → All (λ f. cols f.field ≡ true) fs
  unfolding where_parts
  where_parts-allowed [] r h = tt
  where_parts-allowed (f ∷ fs) r h =
      let (_, valid, h') = >>=-eq-ok (check_column cols f.field) _ r h in
      let (one, _, h'') =
        >>=-eq-ok (filter_clause (quote_identifier f.field) f.operator f.value) _ r h' in
      let (rest, found, _) = >>=-eq-ok (where_parts cols fs) _ r h'' in
      (check_column-allowed cols f.field valid, where_parts-allowed fs rest found)

  where-allowed :
      (fs : List FilterCondition) (r : Sql)
      → build_where_clause cols fs ≡ ok r
      → All (λ f. cols f.field ≡ true) fs
  unfolding build_where_clause
  where-allowed [] r h = tt
  where-allowed (f ∷ fs) r h =
      let (parts, found, _) = >>=-eq-ok (where_parts cols (f ∷ fs)) _ r h in
      where_parts-allowed (f ∷ fs) parts found

  order_by_parts-allowed :
      (os : List OrderByClause) (parts : List Bytes)
      → order_by_parts cols os ≡ ok parts
      → All (λ o. cols o.field ≡ true) os
  unfolding order_by_parts
  order_by_parts-allowed [] parts h = tt
  order_by_parts-allowed (o ∷ os) parts h =
      let (_, valid, h') = >>=-eq-ok (check_column cols o.field) _ parts h in
      let (rest, found, _) = >>=-eq-ok (order_by_parts cols os) _ parts h' in
      (check_column-allowed cols o.field valid, order_by_parts-allowed os rest found)

  order_by-allowed :
      (os : List OrderByClause) (s : Bytes)
      → build_order_by_clause cols os ≡ ok s
      → All (λ o. cols o.field ≡ true) os
  unfolding build_order_by_clause
  order_by-allowed [] s h = tt
  order_by-allowed (o ∷ os) s h =
      let (parts, found, _) = >>=-eq-ok (order_by_parts cols (o ∷ os)) _ s h in
      order_by_parts-allowed (o ∷ os) parts found

validate_table-allowed :
    (b : SqlQueryBuilder) (table : Bytes) (cols : Columns)
    → validate_table b table ≡ ok cols
    → b.allowed_tables table ≡ some cols
unfolding validate_table
validate_table-allowed b table cols h = ground arith

-- The text of what a query selects: `*` for no fields, else the fields in backticks.
abbrev pub selected : List Bytes → Bytes
selected [] = codes "*"
selected (f ∷ fs) = join (map quote_identifier (f ∷ fs)) (codes ", ")

select_parts-selected :
    (cols : Columns) (fs parts : List Bytes)
    → select_parts cols fs ≡ ok parts
    → map quote_identifier fs ≡ parts
unfolding select_parts
select_parts-selected cols [] parts h = ok-injective h
select_parts-selected cols (f ∷ fs) parts h =
    let (_, valid, h') = >>=-eq-ok (check_column cols f) _ parts h in
    let (rest, found, e) = >>=-eq-ok (select_parts cols fs) _ parts h' in
    ap (λ ps. quote_identifier f ∷ ps) (select_parts-selected cols fs rest found) ∙ ok-injective e

select-selected :
    (cols : Columns) (fs : List Bytes) (s : Bytes)
    → build_select_clause cols fs ≡ ok s
    → selected fs ≡ s
unfolding build_select_clause
select-selected cols [] s h = ok-injective h
select-selected cols (f ∷ fs) s h =
    let (parts, found, e) = >>=-eq-ok (select_parts cols (f ∷ fs)) _ s h in
    ap (λ ps. join ps (codes ", ")) (select_parts-selected cols (f ∷ fs) parts found)
    ∙ ok-injective e

-- A query that the builder returns is for a table of the whitelist, and every field that it filters on
-- or sorts by is an allowed column of that table. If the request names fields, the query selects these
-- and nothing else, and each is an allowed column; if it names none, the query selects `*`, all the
-- columns of the table, also those that the whitelist does not allow.
pub build-allowed :
    (b : SqlQueryBuilder) (req : QueryRequest) (table : Bytes) (r : Sql)
    → build b req table ≡ ok r
    → (cols : Columns) × (b.allowed_tables table ≡ some cols)
      × ((rest : Bytes) × (r.0
            ≡ codes "SELECT "
              ++ (selected req.fields ++ (codes " FROM " ++ (quote_identifier table ++ rest)))))
      × All (λ f. cols f ≡ true) req.fields
      × All (λ f. cols f.field ≡ true) req.filters
      × All (λ o. cols o.field ≡ true) req.order_by
unfolding build
build-allowed b req table r h =
    let (cols, table_ok, h₁) = >>=-eq-ok (validate_table b table) _ r h in
    let (select, select_ok, h₂) = >>=-eq-ok (build_select_clause cols req.fields) _ r h₁ in
    let (wh, where_ok, h₃) = >>=-eq-ok (build_where_clause cols req.filters) _ r h₂ in
    let (order, order_ok, e) = >>=-eq-ok (build_order_by_clause cols req.order_by) _ r h₃ in
    let rest =
      optional (codes " WHERE ") wh.0
      ++ (optional (codes " ORDER BY ") order
          ++ optional (codes " ") (build_limit_clause req.pagination)) in
    let clause = select-selected cols req.fields select select_ok in
    (
      cols,
      validate_table-allowed b table cols table_ok,
      (
        rest,
        sym (ap (λ (q : Sql). q.0) (ok-injective e))
            ∙ ap
                (λ c.
                  codes "SELECT " ++ (c ++ (codes " FROM " ++ (quote_identifier table ++ rest))))
                (sym clause),
      ),
      select-allowed cols req.fields select select_ok,
      where-allowed cols req.filters wh where_ok,
      order_by-allowed cols req.order_by order order_ok,
    )
