-- ===== src/Starrocks/Query/Accepted.antt =====
-- What the builder accepts, over a whitelist that was parsed.
use mountain_king.Datasource.Request.{
  FilterOperator, is_in, not_in, unknown, FilterCondition, OrderByClause, QueryRequest,
}
use mountain_king.Datasource.Whitelist.{Tables, allowed_in, parse_allowed_tables}
use mountain_king.Datasource.Whitelist.Names.{allowed_in-IsName, parse_allowed_tables-AreNames}
use mountain_king.Errors.{Result, ok, ◌>>=◌}
use mountain_king.Prelude.{◌≡◌, refl, ap, ◌∙◌, true, some, List, [], ◌∷◌, Bytes, All}
use mountain_king.Starrocks.Identifier.{validate_identifier, quote_identifier}
use mountain_king.Starrocks.Query.{
  Columns, SqlQueryBuilder, Sql, validate_table, check_column, select_parts, build_select_clause,
  build_in_clause, filter_clause, where_parts, build_where_clause, order_by_parts,
  build_order_by_clause, build,
}
use mountain_king.Value.{Value, slice, cons, Fields}

-- It yields a result.
abbrev pub Yields : {T : Type 0} → Result T → Type 0
Yields {T} x = (t : T) × (x ≡ ok t)

bind_at-Yields :
    {T U : Type 0} (f : T → Result U) {x : Result T} {t : T}
    → x ≡ ok t
    → Yields (f t)
    → Yields (x >>= f)
bind_at-Yields f e (u, e') = (u, ap (λ r. r >>= f) e ∙ e')

pub bind-Yields :
    {T U : Type 0} {x : Result T} {f : T → Result U}
    → Yields x
    → ((t : T) → Yields (f t))
    → Yields (x >>= f)
bind-Yields {f} (t, e) next = bind_at-Yields f e (next t)

-- A value that the operator takes: for IN, values, and one at least.
abbrev pub IsTaken : FilterOperator → Value → Type 0
IsTaken is_in (slice (cons v vs)) = Unit
IsTaken is_in v = ⊥
IsTaken not_in (slice (cons v vs)) = Unit
IsTaken not_in v = ⊥
IsTaken (unknown n) v = ⊥
IsTaken op v = Unit

filter_clause-Yields :
    (col : Bytes) (op : FilterOperator) (v : Value) → IsTaken op v → Yields (filter_clause col op v)
unfolding filter_clause build_in_clause
filter_clause-Yields col is_in (slice (cons v vs)) h = (_, refl)
filter_clause-Yields col is_in v h = absurd h
filter_clause-Yields col not_in (slice (cons v vs)) h = (_, refl)
filter_clause-Yields col not_in v h = absurd h
filter_clause-Yields col (unknown n) v h = absurd h
filter_clause-Yields col op v h = (_, refl)

-- A filter on a column that is allowed, with a value that its operator takes.
abbrev pub IsAllowed : Columns → FilterCondition → Type 0
IsAllowed cols f = (cols f.field ≡ true) × IsTaken f.operator f.value

module _ (cols : Columns)
    (names : (c : Bytes) → cols c ≡ true → validate_identifier c ≡ ok tt) where
  check_column-Yields : (f : Bytes) → cols f ≡ true → Yields (check_column cols f)
  unfolding check_column
  check_column-Yields f h = (tt, rw (names f h, h) refl)

  select_parts-Yields :
      (fs : List Bytes) → All (λ f. cols f ≡ true) fs → Yields (select_parts cols fs)
  unfolding select_parts
  select_parts-Yields [] h = ([], refl)
  select_parts-Yields (f ∷ fs) (p, h) =
      bind-Yields (check_column-Yields f p)
        (λ _. bind-Yields (select_parts-Yields fs h) (λ _. (_, refl)))

  select-Yields :
      (fs : List Bytes) → All (λ f. cols f ≡ true) fs → Yields (build_select_clause cols fs)
  unfolding build_select_clause
  select-Yields [] h = (_, refl)
  select-Yields (f ∷ fs) h = bind-Yields (select_parts-Yields (f ∷ fs) h) (λ _. (_, refl))

  where_parts-Yields :
      (fs : List FilterCondition) → All (IsAllowed cols) fs → Yields (where_parts cols fs)
  unfolding where_parts
  where_parts-Yields [] h = (_, refl)
  where_parts-Yields (f ∷ fs) ((p, taken), h) = bind-Yields (check_column-Yields f.field p) (λ _.
      bind-Yields (filter_clause-Yields (quote_identifier f.field) f.operator f.value taken)
        (λ _. bind-Yields (where_parts-Yields fs h) (λ _. (_, refl))))

  where-Yields :
      (fs : List FilterCondition) → All (IsAllowed cols) fs → Yields (build_where_clause cols fs)
  unfolding build_where_clause
  where-Yields [] h = (_, refl)
  where-Yields (f ∷ fs) h = bind-Yields (where_parts-Yields (f ∷ fs) h) (λ _. (_, refl))

  order_by_parts-Yields :
      (os : List OrderByClause)
      → All (λ o. cols o.field ≡ true) os
      → Yields (order_by_parts cols os)
  unfolding order_by_parts
  order_by_parts-Yields [] h = (_, refl)
  order_by_parts-Yields (o ∷ os) (p, h) =
      bind-Yields (check_column-Yields o.field p)
        (λ _. bind-Yields (order_by_parts-Yields os h) (λ _. (_, refl)))

  order_by-Yields :
      (os : List OrderByClause)
      → All (λ o. cols o.field ≡ true) os
      → Yields (build_order_by_clause cols os)
  unfolding build_order_by_clause
  order_by-Yields [] h = (_, refl)
  order_by-Yields (o ∷ os) h = bind-Yields (order_by_parts-Yields (o ∷ os) h) (λ _. (_, refl))

abbrev pub over : Tables → SqlQueryBuilder
over w = record { allowed_tables = allowed_in w }

table-Yields :
    (w : Tables) (table : Bytes) (cols : Columns)
    → allowed_in w table ≡ some cols
    → validate_identifier table ≡ ok tt
    → validate_table (over w) table ≡ ok cols
unfolding validate_table
table-Yields w table cols h valid = rw (valid, h) refl

-- If the whitelist was parsed from the options and the table is in it, a request whose fields, filters
-- and orders are on allowed columns, and whose filters have values that their operators take, is
-- never refused: a query is built.
pub build-parsed :
    (options : Fields) (w : Tables) (table : Bytes) (cols : Columns) (req : QueryRequest)
    → parse_allowed_tables validate_identifier options ≡ ok w
    → allowed_in w table ≡ some cols
    → All (λ f. cols f ≡ true) req.fields
    → All (IsAllowed cols) req.filters
    → All (λ o. cols o.field ≡ true) req.order_by
    → (r : Sql) × (build (over w) req table ≡ ok r)
unfolding build
build-parsed options w table cols req parsed found fields filters order =
    let (name, names) =
      allowed_in-IsName validate_identifier w table cols
        (parse_allowed_tables-AreNames validate_identifier options w parsed) found in
    bind_at-Yields _ (table-Yields w table cols found name) (
      bind-Yields (select-Yields cols names req.fields fields) (λ _.
        bind-Yields (where-Yields cols names req.filters filters)
          (λ _. bind-Yields (order_by-Yields cols names req.order_by order) (λ _. (_, refl)))))
