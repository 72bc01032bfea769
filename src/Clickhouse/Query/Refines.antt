-- ===== src/Clickhouse/Query/Refines.antt =====
-- The builder of ClickHouse beside that of StarRocks.
use mountain_king.Datasource.Request.{
  FilterOperator, is_in, not_in, PaginationParams, FilterCondition, OrderByClause, QueryRequest,
}
use mountain_king.Errors.{Refines, bind-Refines}
use mountain_king.Prelude.{
  sym, is_words, false, ◌≡◌, refl, Option, none, some, List, [], ◌∷◌, Bytes, arith, Bool, true,
}
use mountain_king.Prelude.Int.{ℤ}
use mountain_king.Value.{Value, slice, nil, cons}
use mountain_king.Starrocks.Identifier
use mountain_king.Starrocks.Identifier.{mutation_identifier_re, quote_identifier}
use mountain_king.Starrocks.Query
use mountain_king.Clickhouse.Query.{
  validate_identifier, validate_table, check_column, select_parts, build_select_clause,
  build_in_clause, filter_clause, where_parts, build_where_clause, order_by_parts,
  build_order_by_clause, clamp_limit, clamp_offset, map_option, build_limit_clause, build,
  build_count, ok,
}

identifier-Refines :
    (name : Bytes) → Refines (validate_identifier name) (Identifier.validate_identifier name)
unfolding validate_identifier Identifier.validate_identifier mutation_identifier_re is_words
identifier-Refines [] r h = h
identifier-Refines (c ∷ name) r h = ground arith

column-Refines :
    (cols : Query.Columns) (f : Bytes) → Refines (check_column cols f) (Query.check_column cols f)
unfolding check_column Query.check_column
column-Refines cols f = bind-Refines (identifier-Refines f) (λ _ r h. h)

table-Refines :
    (b : Query.SqlQueryBuilder) (table : Bytes)
    → Refines (validate_table b table) (Query.validate_table b table)
unfolding validate_table Query.validate_table
table-Refines b table = bind-Refines (identifier-Refines table) (λ _ r h. h)

in-Refines :
    (col : Bytes) (v : Value) (negate : Bool)
    → Refines (build_in_clause col v negate) (Query.build_in_clause col v negate)
unfolding build_in_clause Query.build_in_clause
in-Refines col (slice nil) negate r h = h
in-Refines col (slice (cons v vs)) negate r h = ground arith
in-Refines col v negate r h = h

filter-Refines :
    (col : Bytes) (op : FilterOperator) (v : Value)
    → Refines (filter_clause col op v) (Query.filter_clause col op v)
unfolding filter_clause Query.filter_clause
filter-Refines col is_in v = in-Refines col v false
filter-Refines col not_in v = in-Refines col v true
filter-Refines col op v = λ r h. h

module _ (cols : Query.Columns) where
  select_parts-Refines :
      (fs : List Bytes) → Refines (select_parts cols fs) (Query.select_parts cols fs)
  unfolding select_parts Query.select_parts
  select_parts-Refines [] = λ r h. h
  select_parts-Refines (f ∷ fs) =
      bind-Refines (column-Refines cols f)
        (λ _. bind-Refines (select_parts-Refines fs) (λ _ r h. h))

  select-Refines :
      (fs : List Bytes) → Refines (build_select_clause cols fs) (Query.build_select_clause cols fs)
  unfolding build_select_clause Query.build_select_clause
  select-Refines [] = λ r h. h
  select-Refines (f ∷ fs) = bind-Refines (select_parts-Refines (f ∷ fs)) (λ _ r h. h)

  where_parts-Refines :
      (fs : List FilterCondition) → Refines (where_parts cols fs) (Query.where_parts cols fs)
  unfolding where_parts Query.where_parts
  where_parts-Refines [] = λ r h. h
  where_parts-Refines (f ∷ fs) = bind-Refines (column-Refines cols f.field) (λ _.
      bind-Refines (filter-Refines (quote_identifier f.field) f.operator f.value)
        (λ _. bind-Refines (where_parts-Refines fs) (λ _ r h. h)))

  where-Refines :
      (fs : List FilterCondition)
      → Refines (build_where_clause cols fs) (Query.build_where_clause cols fs)
  unfolding build_where_clause Query.build_where_clause
  where-Refines [] = λ r h. h
  where-Refines (f ∷ fs) = bind-Refines (where_parts-Refines (f ∷ fs)) (λ _ r h. h)

  order_by_parts-Refines :
      (os : List OrderByClause) → Refines (order_by_parts cols os) (Query.order_by_parts cols os)
  unfolding order_by_parts Query.order_by_parts
  order_by_parts-Refines [] = λ r h. h
  order_by_parts-Refines (o ∷ os) =
      bind-Refines (column-Refines cols o.field)
        (λ _. bind-Refines (order_by_parts-Refines os) (λ _ r h. h))

  order_by-Refines :
      (os : List OrderByClause)
      → Refines (build_order_by_clause cols os) (Query.build_order_by_clause cols os)
  unfolding build_order_by_clause Query.build_order_by_clause
  order_by-Refines [] = λ r h. h
  order_by-Refines (o ∷ os) = bind-Refines (order_by_parts-Refines (o ∷ os)) (λ _ r h. h)

-- A page with its numbers clamped: no number is negative, and no limit above the bound.
abbrev pub clamped : Option PaginationParams → Option PaginationParams
clamped none = none
clamped (some p) = some (record {
  first = map_option clamp_limit p.first;
  after = p.after;
  offset = map_option clamp_offset p.offset;
  limit = map_option clamp_limit p.limit;
})

pub limit_of-clamped :
    (first limit offset : Option ℤ) (after : Option Bytes)
    → map_option clamp_limit
        (Query.limit_of (record { first = first; after = after; offset = offset; limit = limit }))
      ≡ Query.limit_of (record {
        first = map_option clamp_limit first;
        after = after;
        offset = map_option clamp_offset offset;
        limit = map_option clamp_limit limit;
      })
unfolding Query.limit_of
limit_of-clamped none limit offset after = refl
limit_of-clamped (some n) limit offset after = refl

pub offset_of-clamped :
    (first limit offset : Option ℤ) (after : Option Bytes)
    → map_option clamp_offset
        (Query.offset_of (record { first = first; after = after; offset = offset; limit = limit }))
      ≡ Query.offset_of (record {
        first = map_option clamp_limit first;
        after = after;
        offset = map_option clamp_offset offset;
        limit = map_option clamp_limit limit;
      })
unfolding Query.offset_of clamp_offset
offset_of-clamped first limit offset none = refl
offset_of-clamped first limit offset (some cursor) = ground arith

limit-clamped :
    (p : Option PaginationParams) → build_limit_clause p ≡ Query.build_limit_clause (clamped p)
unfolding build_limit_clause Query.build_limit_clause
limit-clamped none = refl
limit-clamped (some p) =
    rw
      (
        limit_of-clamped p.first p.limit p.offset p.after,
        offset_of-clamped p.first p.limit p.offset p.after,
      )
      refl

-- The request with its page clamped.
abbrev pub clamped_request : QueryRequest → QueryRequest
clamped_request req = record req { pagination = clamped req.pagination }

pub build-Refines :
    (b : Query.SqlQueryBuilder) (req : QueryRequest) (table : Bytes)
    → Refines (build b req table) (Query.build b (clamped_request req) table)
unfolding build Query.build
build-Refines b req table = bind-Refines (table-Refines b table) (λ cols.
    bind-Refines (select-Refines cols req.fields) (λ _.
      bind-Refines (where-Refines cols req.filters) (λ _.
        bind-Refines (order_by-Refines cols req.order_by)
          (λ _ r h. rw (sym (limit-clamped req.pagination)) h))))

-- What the builder of ClickHouse returns for a request, the builder of StarRocks returns for it with
-- its page clamped, over the same whitelist.
pub build-clamped_request :
    (b : Query.SqlQueryBuilder) (req : QueryRequest) (table : Bytes) (r : Query.Sql)
    → build b req table ≡ ok r
    → Query.build b (clamped_request req) table ≡ ok r
build-clamped_request b req table = build-Refines b req table

pub build_count-Refines :
    (b : Query.SqlQueryBuilder) (req : QueryRequest) (table : Bytes)
    → Refines (build_count b req table) (Query.build_count b req table)
unfolding build_count Query.build_count
build_count-Refines b req table =
    bind-Refines (table-Refines b table)
      (λ cols. bind-Refines (where-Refines cols req.filters) (λ _ r h. h))
