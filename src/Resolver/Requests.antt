-- ===== src/Resolver/Requests.antt =====
-- internal/graphql/resolver/query.go: the requests to the data sources that the arguments of a query
-- become. A pointer is an `Option`; an instant is the text that `Time.Format` gives it.
pub mod Dropped
mod Tests
use mountain_king.Prelude.{Bool, true, false, Option, none, some, List, [], ◌∷◌, Bytes, codes}
use mountain_king.Prelude.Int.{ℤ}
use mountain_king.Value.{Value, Fields, end, field, string}
use mountain_king.Datasource.Request.{
  FilterOperator, eq, neq, gt, gte, lt, lte, like, is_in, not_in, is_null, is_not_null,
  SortDirection, asc, desc, FilterCondition, OrderByClause, PaginationParams, QueryRequest,
}

-- The enumerations of the schema; `other` is any further text.
pub data GraphqlOperator : Type 0 where
  op_eq op_neq op_gt op_gte op_lt op_lte op_like op_in op_not_in op_is_null op_is_not_null
        op_other :
      GraphqlOperator

pub data LabelMatchType : Type 0 where
  exact not_equal regex not_regex other : LabelMatchType

unfoldable pub convert_filter_operator : GraphqlOperator → FilterOperator
convert_filter_operator op_eq = eq
convert_filter_operator op_neq = neq
convert_filter_operator op_gt = gt
convert_filter_operator op_gte = gte
convert_filter_operator op_lt = lt
convert_filter_operator op_lte = lte
convert_filter_operator op_like = like
convert_filter_operator op_in = is_in
convert_filter_operator op_not_in = not_in
convert_filter_operator op_is_null = is_null
convert_filter_operator op_is_not_null = is_not_null
convert_filter_operator op_other = eq

-- The argument tells whether the direction is `DESC`.
unfoldable pub convert_sort_direction : Bool → SortDirection
convert_sort_direction is_desc = elim is_desc [ true ↦ desc | false ↦ asc ]

unfoldable pub convert_label_match_type : LabelMatchType → FilterOperator
convert_label_match_type exact = eq
convert_label_match_type not_equal = neq
convert_label_match_type regex = like
convert_label_match_type not_regex = not_in
convert_label_match_type other = eq

pub record StarrocksFilter : Type 0 where
  pub field : Bytes
  pub operator : GraphqlOperator
  pub value : Value

pub record StarrocksOrderBy : Type 0 where
  pub field : Bytes
  pub is_desc : Bool

pub record PrometheusLabelFilter : Type 0 where
  pub name : Bytes
  pub value : Bytes
  pub match_type : LabelMatchType

unfoldable pub convert_filters : List (Option StarrocksFilter) → List FilterCondition
unfolding convert_filter_operator
convert_filters [] = []
convert_filters (none ∷ fs) = convert_filters fs
convert_filters (some f ∷ fs) =
    record { field = f.field; operator = convert_filter_operator f.operator; value = f.value }
    ∷ convert_filters fs

unfoldable pub convert_order : List (Option StarrocksOrderBy) → List OrderByClause
unfolding convert_sort_direction
convert_order [] = []
convert_order (none ∷ os) = convert_order os
convert_order (some o ∷ os) =
    record { field = o.field; direction = convert_sort_direction o.is_desc } ∷ convert_order os

unfoldable pub page_of : Option ℤ → Option Bytes → Option ℤ → Option ℤ → Option PaginationParams
page_of none none none none = none
page_of first after offset limit =
    some (record { first = first; after = after; offset = offset; limit = limit })

unfoldable pub build_starrocks_query_request :
    List Bytes
    → List (Option StarrocksFilter)
    → List (Option StarrocksOrderBy)
    → Option ℤ
    → Option Bytes
    → Option ℤ
    → Option ℤ
    → QueryRequest
unfolding convert_filters convert_order page_of
build_starrocks_query_request fields filters order_by first after offset limit = record {
  fields = fields;
  filters = convert_filters filters;
  order_by = convert_order order_by;
  pagination = page_of first after offset limit;
  options = end;
}

unfoldable pub convert_labels : List (Option PrometheusLabelFilter) → List FilterCondition
unfolding convert_label_match_type
convert_labels [] = []
convert_labels (none ∷ fs) = convert_labels fs
convert_labels (some f ∷ fs) =
    record {
      field = f.name;
      operator = convert_label_match_type f.match_type;
      value = string f.value;
    }
    ∷ convert_labels fs

-- A request with options and filters only.
abbrev with_options : Fields → List (Option PrometheusLabelFilter) → QueryRequest
unfolding convert_labels
with_options options filters = record {
  fields = [];
  filters = convert_labels filters;
  order_by = [];
  pagination = none;
  options = options;
}

unfoldable pub time_option : Option Bytes → Fields
time_option none = end
time_option (some time) = field (codes "time") (string time) end

unfoldable pub build_prometheus_instant_request :
    Bytes → Option Bytes → List (Option PrometheusLabelFilter) → QueryRequest
unfolding with_options convert_labels time_option
build_prometheus_instant_request query time filters =
    with_options
      (field (codes "query") (string query)
        (field (codes "query_type") (string (codes "instant")) (time_option time)))
      filters

unfoldable pub build_prometheus_range_request :
    Bytes → Bytes → Bytes → Bytes → List (Option PrometheusLabelFilter) → QueryRequest
unfolding with_options convert_labels
build_prometheus_range_request query start_time end_time step filters =
    with_options
      (field (codes "query") (string query) (
        field (codes "query_type") (string (codes "range")) (
          field (codes "startTime") (string start_time)
            (field (codes "endTime") (string end_time) (field (codes "step") (string step) end)))))
      filters
