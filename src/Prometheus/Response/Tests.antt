-- ===== src/Prometheus/Response/Tests.antt =====
-- Answers of Prometheus.
use mountain_king.Datasource.Request.{QueryRequest}
use mountain_king.Errors.{ok, datasource_error, err_datasource_max_data_points}
use mountain_king.Prelude.{
  ◌≡◌, refl, true, some, none, [], ◌∷◌, Bytes, codes, bytes_eq, Option, ℕ, if◌then◌else◌,
  has_prefix,
}
use mountain_king.Prelude.Int.{pos}
use mountain_king.Prometheus.Response.{
  Pair, Series, PrometheusData, vector, sample, Converted, is_nan, answered, Answered, execute,
  convert_response,
}
use mountain_king.Prometheus.Response.Warned.{IsSound, execute-IsSound}
use mountain_king.Prometheus.Builder.{Query}
use mountain_king.Prometheus.Validator.{validate_query_expression}
use mountain_king.Value.{Value, string, field, end}

-- 1.0 and the quiet NaN.
abbrev parse_float : Bytes → Option ℕ
parse_float s =
    if bytes_eq s (codes "1")
    then some 0x3FF0000000000000
    else if bytes_eq s (codes "NaN")
    then some 0x7FF8000000000001
    else none

abbrev series : Bytes → Series Pair
series text = record { metric = []; points = record { timestamp = some 7; text = some text } }

abbrev data_points : PrometheusData
data_points = vector (some (series (codes "1") ∷ series (codes "NaN") ∷ []))

abbrev converted : Converted
converted = record {
  rows =
      sample (some []) (record { timestamp = 7; value = some 0x3FF0000000000000 })
      ∷ sample (some []) (record { timestamp = 7; value = none })
      ∷ [];
  warnings = is_nan ∷ [];
}

too_many_points :
    convert_response parse_float (pos 1) data_points
    ≡ datasource_error err_datasource_max_data_points
unfolding convert_response
too_many_points = refl

abbrev request : QueryRequest
request = record {
  fields = [];
  filters = [];
  order_by = [];
  pagination = none;
  options = field (codes "query") (string (codes "up")) end;
}

abbrev sprint : Value → Bytes
sprint (string s) = s
sprint v = []

abbrev ask : Bytes × Query → Answered
ask asked = answered 200 (some (codes "success", some data_points))

answer : execute sprint parse_float (pos 10) true request ask ≡ ok converted
unfolding execute validate_query_expression bytes_eq has_prefix
answer = refl

execute-IsSound_example :
    (asked : Bytes × Query) × (d : PrometheusData) × (ask asked
      ≡ answered 200 (some (codes "success", some d)))
    × IsSound parse_float (pos 10) d converted
execute-IsSound_example =
    execute-IsSound parse_float (pos 10) sprint true request ask converted answer
