-- ===== src/Clickhouse/Query/Tests.antt =====
-- Queries of concrete requests.
use mountain_king.Datasource.Request.{QueryRequest, PaginationParams, desc, is_in}
use mountain_king.Errors.{ok, err_validation_invalid_field, validation_error}
use mountain_king.Prelude.{
  ◌≡◌, refl, ◌||◌, none, some, List, [], ◌∷◌, ◌++◌, Bytes, codes, bytes_eq, if◌then◌else◌,
}
use mountain_king.Prelude.Int.{pos, negsuc}
use mountain_king.Starrocks.Query
use mountain_king.Starrocks.Query.{Columns, SqlQueryBuilder}
use mountain_king.Clickhouse.Query.{build, validate_identifier}
use mountain_king.Clickhouse.Query.Refines.{clamped_request, build-clamped_request}
use mountain_king.Value.{Value, int, slice, nil, cons, end}

abbrev columns : Columns
columns f = bytes_eq f (codes "event_id") || bytes_eq f (codes "payload")

abbrev builder : SqlQueryBuilder
builder = record {
  allowed_tables = λ t. if bytes_eq t (codes "events") then some columns else none;
}

-- A limit above the bound and an offset below zero.
abbrev page : PaginationParams
page = record { first = some (pos 5000000); after = none; offset = some (negsuc 3); limit = none }

abbrev request : QueryRequest
request = record {
  fields = codes "event_id" ∷ [];
  filters =
      record {
        field = codes "event_id";
        operator = is_in;
        value = slice (cons (int (pos 1)) (cons (int (pos 2)) nil));
      }
      ∷ [];
  order_by = record { field = codes "payload"; direction = desc } ∷ [];
  pagination = some page;
  options = end;
}

abbrev text : Bytes
text =
    codes "SELECT `event_id` FROM `events` WHERE `event_id` IN (?, ?)"
    ++ codes " ORDER BY `payload` DESC LIMIT 100000 OFFSET 0"

abbrev values : List Value
values = int (pos 1) ∷ int (pos 2) ∷ []

query_text : build builder request (codes "events") ≡ ok (text, values)
unfolding build bytes_eq
query_text = refl

refuses_digit :
    validate_identifier (codes "1events") ≡ validation_error err_validation_invalid_field
unfolding validate_identifier
refuses_digit = refl

build-clamped_request_example :
    Query.build builder (clamped_request request) (codes "events") ≡ ok (text, values)
unfolding build bytes_eq
build-clamped_request_example =
    build-clamped_request builder request (codes "events") (text, values) refl
