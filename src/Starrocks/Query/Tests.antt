-- ===== src/Starrocks/Query/Tests.antt =====
-- Queries for concrete requests, and the theorems at requests that are accepted.
use mountain_king.Datasource.Request.{QueryRequest, PaginationParams, desc, eq, not_in}
use mountain_king.Errors.{
  ok, err_validation_invalid_field, err_validation_invalid_table, validation_error,
}
use mountain_king.Prelude.{
  any, is_words, ◌≡◌, refl, true, ◌||◌, none, some, List, [], ◌∷◌, ◌++◌, Bytes, codes, bytes_eq,
  if◌then◌else◌, All,
}
use mountain_king.Prelude.Int.{pos, negsuc}
use mountain_king.Starrocks.Cursor.{encode_cursor}
use mountain_king.Starrocks.Fragment.{IsFragment}
use mountain_king.Starrocks.Query.{
  Columns, Sql, SqlQueryBuilder, build, build_count, build_limit_clause, limit_of, offset_of,
}
use mountain_king.Starrocks.Query.Pages.{build_limit_clause-encode_cursor}
use mountain_king.Starrocks.Query.Placeholders.{build-IsSql}
use mountain_king.Starrocks.Query.Whitelist.{build-allowed, selected}
use mountain_king.Datasource.Whitelist.{Tables, allowed_in, parse_allowed_tables}
use mountain_king.Starrocks.Identifier.{validate_identifier, quote_identifier}
use mountain_king.Starrocks.Query.Accepted.{over, build-parsed}
use mountain_king.Value.{Fields, field, object, Value, int, string, slice, nil, cons, end}

abbrev columns : Columns
columns f = bytes_eq f (codes "id") || bytes_eq f (codes "name")

abbrev builder : SqlQueryBuilder
builder = record { allowed_tables = λ t. if bytes_eq t (codes "users") then some columns else none }

abbrev page : PaginationParams
page = record {
  first = some (pos 10);
  after = some (codes "20");
  offset = some (pos 3);
  limit = none;
}

abbrev request : QueryRequest
request = record {
  fields = codes "id" ∷ codes "name" ∷ [];
  filters =
      record { field = codes "name"; operator = eq; value = string (codes "x") }
      ∷ record {
        field = codes "id";
        operator = not_in;
        value = slice (cons (int (pos 1)) (cons (int (pos 2)) nil));
      }
      ∷ [];
  order_by = record { field = codes "id"; direction = desc } ∷ [];
  pagination = some page;
  options = end;
}

abbrev text : Bytes
text =
    codes "SELECT `id`, `name` FROM `users` WHERE `name` = ? AND `id` NOT IN (?, ?)"
    ++ codes " ORDER BY `id` DESC LIMIT 10 OFFSET 20"

abbrev values : List Value
values = string (codes "x") ∷ int (pos 1) ∷ int (pos 2) ∷ []

query_text : build builder request (codes "users") ≡ ok (text, values)
unfolding build bytes_eq
query_text = refl

refuses_column :
    build builder (record request { fields = codes "secret" ∷ [] }) (codes "users")
    ≡ validation_error err_validation_invalid_field
unfolding build bytes_eq
refuses_column = refl

refuses_table :
    build builder request (codes "orders") ≡ validation_error err_validation_invalid_table
unfolding build bytes_eq
refuses_table = refl

-- A negative limit is written as it is.
negative_limit :
    build_limit_clause (some (record page { first = some (negsuc 4); after = none }))
    ≡ codes "LIMIT -5 OFFSET 3"
unfolding build_limit_clause
negative_limit = refl

first_cursor : encode_cursor (pos 0) ≡ codes "Y3Vyc29yOjA="
unfolding encode_cursor
first_cursor = refl

build-IsSql_example : IsFragment 3 text
unfolding limit_of offset_of
build-IsSql_example = build-IsSql builder request (codes "users") (text, values) query_text (tt, tt)

count_text :
    build_count builder request (codes "users")
    ≡ ok (codes "SELECT COUNT(*) FROM `users` WHERE `name` = ? AND `id` NOT IN (?, ?)", values)
unfolding build_count bytes_eq
count_text = refl

build-allowed_example :
    (cols : Columns) × (builder.allowed_tables (codes "users") ≡ some cols)
    × ((rest : Bytes) × (text
          ≡ codes "SELECT "
            ++ (selected request.fields
                ++ (codes " FROM " ++ (quote_identifier (codes "users") ++ rest)))))
    × All (λ f. cols f ≡ true) request.fields
    × All (λ f. cols f.field ≡ true) request.filters
    × All (λ o. cols o.field ≡ true) request.order_by
build-allowed_example = build-allowed builder request (codes "users") (text, values) query_text

build_limit_clause-encode_cursor_example :
    build_limit_clause (some (record page { after = some (encode_cursor (pos 9)) }))
    ≡ build_limit_clause (some (record page { after = none; offset = none }))
build_limit_clause-encode_cursor_example = build_limit_clause-encode_cursor page (pos 9)

-- The options of a data source with one table.
abbrev options : Fields
options =
    field (codes "allowed_tables")
      (object (
        field (codes "users")
          (object (
            field (codes "columns")
              (slice (cons (string (codes "id")) (cons (string (codes "name")) nil))) end))
          end))
      end

abbrev tables : Tables
tables = (codes "users", codes "id" ∷ codes "name" ∷ []) ∷ []

abbrev users : Columns
users c = any (λ k. bytes_eq k c) (codes "id" ∷ codes "name" ∷ [])

parsed_tables : parse_allowed_tables validate_identifier options ≡ ok tables
unfolding parse_allowed_tables validate_identifier bytes_eq is_words
parsed_tables = refl

build-parsed_example : (r : Sql) × (build (over tables) request (codes "users") ≡ ok r)
unfolding bytes_eq allowed_in
build-parsed_example =
    build-parsed options tables (codes "users") users request parsed_tables refl (refl, (refl, tt))
      ((refl, tt), ((refl, tt), tt)) (refl, tt)
