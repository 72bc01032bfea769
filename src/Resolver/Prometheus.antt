-- ===== src/Resolver/Prometheus.antt =====
-- internal/graphql/resolver: the results of Prometheus as GraphQL has them (query.go, base.resolvers.go).
-- A row is the map that the adapter makes (internal/adapter/prometheus/adapter.go). The rows hold no
-- float32; a float64 is its bit pattern.
mod Lost
mod Tests
use mountain_king.Errors.{Result, ok, ◌>>=◌}
use mountain_king.Prelude.{
  ℕ, Option, none, some, List, [], ◌∷◌, Bytes, codes, map, bytes_eq, if◌then◌else◌,
}
use mountain_king.Prelude.Int.{ℤ}
use mountain_king.Prometheus.Response.{Point, Row, sample, range_row, text_row, raw_row, Converted}
use mountain_king.Value.{
  Value, Fields, field, end, Items, nil, cons, object, slice, string_slice, string, boolean,
  float64, int, int64, json_number, null, other, lookup_field, float32,
}

-- The dynamic types of a row: `metric` is a map[string]string, `value` a *float64, `values` a
-- []*float64 and `timestamps` a []float64, none of them a type of JSON.
abbrev pub row_fields : Row → Fields
row_fields (sample none point) =
    field (codes "value") other (field (codes "timestamp") (float64 point.timestamp) end)
row_fields (sample (some metric) point) =
    field (codes "metric") other
      (field (codes "value") other (field (codes "timestamp") (float64 point.timestamp) end))
row_fields (range_row metric points) =
    field (codes "metric") other
      (field (codes "values") other (field (codes "timestamps") other end))
row_fields (text_row timestamp text) =
    field (codes "value") (string text) (field (codes "timestamp") (float64 timestamp) end)
row_fields (raw_row type_name raw) =
    field (codes "resultType") (string type_name) (field (codes "raw") (string raw) end)

-- What fmt and strconv do, with the number that ParseFloat returns beside an error.
pub record Numerics : Type 0 where
  pub sprint : Value → Bytes
  pub of_int : ℤ → ℕ
  pub of_float32 : ℕ → ℕ
  pub parse_float : Bytes → ℕ

pub record MetricLabel : Type 0 where
  pub name : Bytes
  pub value : Bytes

pub record DataPoint : Type 0 where
  pub timestamp : ℕ
  pub value : Option ℕ

pub record PrometheusVector : Type 0 where
  pub metric : List MetricLabel
  pub point : DataPoint

pub record PrometheusMatrix : Type 0 where
  pub metric : List MetricLabel
  pub points : List DataPoint

pub record InstantResult : Type 0 where
  pub result_type : Bytes
  pub vectors : List PrometheusVector

pub record RangeResult : Type 0 where
  pub result_type : Bytes
  pub matrices : List PrometheusMatrix

abbrev string_or : Bytes → Option Value → Bytes
string_or default (some (string s)) = s
string_or default v = default

abbrev pub result_type_of : Bytes → List Fields → Bytes
unfolding lookup_field bytes_eq
result_type_of default [] = default
result_type_of default (row ∷ rows) = string_or default (lookup_field (codes "resultType") row)

module _ (n : Numerics) where
  unfoldable pub to_float64 : Value → ℕ
  to_float64 (float64 bits) = bits
  to_float64 (float32 bits) = n.of_float32 bits
  to_float64 (int z) = n.of_int z
  to_float64 (int64 z) = n.of_int z
  to_float64 (string s) = n.parse_float s
  to_float64 v = 0

  abbrev float_or_zero : Option Value → ℕ
  unfolding to_float64
  float_or_zero none = 0
  float_or_zero (some v) = to_float64 v

  abbrev float_of : Option Value → Option ℕ
  unfolding to_float64
  float_of none = none
  float_of (some v) = some (to_float64 v)

  unfoldable pub extract_data_point : Fields → DataPoint
  unfolding lookup_field float_or_zero float_of bytes_eq
  extract_data_point row = record {
    timestamp = float_or_zero (lookup_field (codes "timestamp") row);
    value = float_of (lookup_field (codes "value") row);
  }

  abbrev pub points_of_items : Items → List DataPoint
  unfolding extract_data_point
  points_of_items nil = []
  points_of_items (cons (object pair) vs) = extract_data_point pair ∷ points_of_items vs
  points_of_items (cons v vs) = points_of_items vs

  abbrev pub points_of_value : Option Value → List DataPoint
  unfolding points_of_items
  points_of_value (some (slice values)) = points_of_items values
  points_of_value v = []

  unfoldable pub extract_data_points : Fields → List DataPoint
  unfolding lookup_field points_of_value bytes_eq
  extract_data_points row = points_of_value (lookup_field (codes "values") row)

  abbrev pub labels_of : Fields → List MetricLabel
  labels_of end = []
  labels_of (field k v fs) = record { name = k; value = n.sprint v } ∷ labels_of fs

  abbrev pub labels_of_value : Option Value → List MetricLabel
  labels_of_value (some (object fs)) = labels_of fs
  labels_of_value v = []

  unfoldable pub extract_metric_labels : Fields → List MetricLabel
  unfolding lookup_field bytes_eq
  extract_metric_labels row = labels_of_value (lookup_field (codes "metric") row)

  unfoldable pub convert_to_instant_result : List Fields → InstantResult
  unfolding extract_metric_labels extract_data_point result_type_of
  convert_to_instant_result rows = record {
    result_type = result_type_of (codes "vector") rows;
    vectors =
        map (λ row. record { metric = extract_metric_labels row; point = extract_data_point row })
          rows;
  }

  unfoldable pub convert_to_range_result : List Fields → RangeResult
  unfolding extract_metric_labels extract_data_points result_type_of
  convert_to_range_result rows = record {
    result_type = result_type_of (codes "matrix") rows;
    matrices =
        map (λ row. record { metric = extract_metric_labels row; points = extract_data_points row })
          rows;
  }

  -- The resolvers, over what the data source answers.
  unfoldable pub prometheus_instant : Result Converted → Result InstantResult
  unfolding convert_to_instant_result
  prometheus_instant answer = do
    result ← answer
    ok (convert_to_instant_result (map row_fields result.rows))

  unfoldable pub prometheus_range : Result Converted → Result RangeResult
  unfolding convert_to_range_result
  prometheus_range answer = do
    result ← answer
    ok (convert_to_range_result (map row_fields result.rows))
