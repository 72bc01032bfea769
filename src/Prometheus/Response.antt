-- ===== src/Prometheus/Response.antt =====
-- internal/adapter/prometheus: the conversion of what the HTTP API answers (adapter.go, type_mapper.go).
-- The package encoding/json is taken apart before: a part that cannot be decoded is none. A float64 is its
-- bit pattern.
mod Warned
mod Tests
use mountain_king.Errors.{
  Result, ok, err, ◌>>=◌, datasource_error, err_datasource_query_error,
  err_datasource_max_data_points,
}
use mountain_king.Prelude.{
  bytes_eq, ℕ, zero, suc, ◌+◌, ◌%◌, ◌^◌, Bool, true, false, not, Option, none, some, List, [], ◌∷◌,
  ◌++◌, Bytes, codes, ltb, ◌==◌, if◌then◌else◌, length, map,
}
use mountain_king.Prelude.Int.{ℤ, pos, negsuc, ltb_ℤ}
use mountain_king.Datasource.Request.{QueryRequest}
use mountain_king.Prometheus.Builder.{Query, prepare}
use mountain_king.Template.Params.{is_finite}
use mountain_king.Value.{Value}

-- A warning says which of these it is, and where.
pub data Cause : Type 0 where
  is_nan is_plus_infinity is_minus_infinity bad_timestamp bad_value bad_float : Cause

-- `[timestamp, value]`.
pub record Pair : Type 0 where
  pub timestamp : Option ℕ
  pub text : Option Bytes

pub record Series (A : Type 0) : Type 0 where
  pub metric : List (Bytes × Bytes)
  pub points : A

-- The `data` of a response, by its type of result.
pub data PrometheusData : Type 0 where
  vector : Option (List (Series Pair)) → PrometheusData
  matrix : Option (List (Series (List Pair))) → PrometheusData
  scalar : Option Pair → PrometheusData
  text_result : Option Pair → PrometheusData
  other_result : (type_name raw : Bytes) → PrometheusData

-- A point of a row: the value is nil where it is none.
pub record Point : Type 0 where
  pub timestamp : ℕ
  pub value : Option ℕ

pub data Row : Type 0 where
  sample : Option (List (Bytes × Bytes)) → Point → Row
  range_row : List (Bytes × Bytes) → List Point → Row
  text_row : (timestamp : ℕ) → Bytes → Row
  raw_row : (type_name raw : Bytes) → Row

pub record Converted : Type 0 where
  pub rows : List Row
  pub warnings : List Cause

-- `math.IsNaN` and `math.IsInf`, for the numbers with the largest exponent.
unfoldable pub convert_value : ℕ → Option ℕ × List Cause
unfolding is_finite
convert_value bits =
    if is_finite bits
    then (some bits, [])
    else if not (bits % 2 ^ 52 == 0)
    then (none, is_nan ∷ [])
    else if ltb bits (2 ^ 63)
    then (none, is_plus_infinity ∷ [])
    else (none, is_minus_infinity ∷ [])

module _ (parse_float : Bytes → Option ℕ) (max_data_points : ℤ) where
  -- The float of a value, at its moment.
  unfoldable pub parse_value : ℕ → Option ℕ → Point × List Cause
  unfolding convert_value
  parse_value ts none = (record { timestamp = ts; value = none }, bad_float ∷ [])
  parse_value ts (some bits) =
      (record { timestamp = ts; value = (convert_value bits).0 }, (convert_value bits).1)

  unfoldable pub parse_parts : Option ℕ → Option Bytes → Point × List Cause
  unfolding parse_value
  parse_parts none text = (record { timestamp = 0; value = none }, bad_timestamp ∷ [])
  parse_parts (some ts) none = (record { timestamp = ts; value = none }, bad_value ∷ [])
  parse_parts (some ts) (some s) = parse_value ts (parse_float s)

  unfoldable pub parse_timestamp_value : Pair → Point × List Cause
  unfolding parse_parts
  parse_timestamp_value pair = parse_parts pair.timestamp pair.text

  abbrev query_error : {A : Type 0} → Result A
  query_error = datasource_error err_datasource_query_error

  abbrev too_many : {A : Type 0} → Result A
  too_many = datasource_error err_datasource_max_data_points

  -- The loop over the pairs of a series.
  unfoldable pub points_of : List Pair → List Point × List Cause
  unfolding parse_timestamp_value
  points_of [] = ([], [])
  points_of (pair ∷ pairs) =
      let (point, warned) = parse_timestamp_value pair in
      let (points, warnings) = points_of pairs in (point ∷ points, warned ++ warnings)

  unfoldable pub vector_rows : List (Series Pair) → Converted
  unfolding parse_timestamp_value
  vector_rows [] = record { rows = []; warnings = [] }
  vector_rows (r ∷ rs) =
      let (point, warned) = parse_timestamp_value r.points in
      let rest = vector_rows rs in
      record { rows = sample (some r.metric) point ∷ rest.rows; warnings = warned ++ rest.warnings }

  unfoldable pub convert_vector : Option (List (Series Pair)) → Result Converted
  unfolding vector_rows
  convert_vector none = query_error
  convert_vector (some rs) =
      if ltb_ℤ max_data_points (pos (length rs)) then too_many else ok (vector_rows rs)

  unfoldable pub total_points : List (Series (List Pair)) → ℕ
  total_points [] = 0
  total_points (r ∷ rs) = length r.points + total_points rs

  unfoldable pub matrix_rows : List (Series (List Pair)) → Converted
  unfolding points_of
  matrix_rows [] = record { rows = []; warnings = [] }
  matrix_rows (r ∷ rs) =
      let (points, warned) = points_of r.points in
      let rest = matrix_rows rs in
      record { rows = range_row r.metric points ∷ rest.rows; warnings = warned ++ rest.warnings }

  unfoldable pub convert_matrix : Option (List (Series (List Pair))) → Result Converted
  unfolding total_points matrix_rows
  convert_matrix none = query_error
  convert_matrix (some rs) =
      if ltb_ℤ max_data_points (pos (total_points rs)) then too_many else ok (matrix_rows rs)

  unfoldable pub convert_scalar : Option Pair → Result Converted
  unfolding parse_timestamp_value
  convert_scalar none = query_error
  convert_scalar (some pair) =
      let (point, warned) = parse_timestamp_value pair in
      ok (record { rows = sample none point ∷ []; warnings = warned })

  abbrev text_of : Option ℕ → Option Bytes → Result Converted
  text_of (some ts) (some s) = ok (record { rows = text_row ts s ∷ []; warnings = [] })
  text_of ts s = query_error

  unfoldable pub convert_string : Option Pair → Result Converted
  convert_string none = query_error
  convert_string (some pair) = text_of pair.timestamp pair.text

  unfoldable pub convert_response : PrometheusData → Result Converted
  unfolding convert_vector convert_matrix convert_scalar convert_string
  convert_response (vector raw) = convert_vector raw
  convert_response (matrix raw) = convert_matrix raw
  convert_response (scalar raw) = convert_scalar raw
  convert_response (text_result raw) = convert_string raw
  convert_response (other_result type_name raw) =
      ok (record { rows = raw_row type_name raw ∷ []; warnings = [] })

-- What the HTTP request comes to: no request or response; a response with its status, whether it is
-- JSON of the API, its `status`, and the data in it.
pub data Answered : Type 0 where
  unanswered : Answered
  answered : (status : ℕ) → (api : Option (Bytes × Option PrometheusData)) → Answered

abbrev failed : {A : Type 0} → Result A
failed = datasource_error err_datasource_query_error

abbrev data_of : Option PrometheusData → Result PrometheusData
data_of none = failed
data_of (some d) = ok d

abbrev api_data : Option (Bytes × Option PrometheusData) → Result PrometheusData
unfolding bytes_eq
api_data none = failed
api_data (some (status, d)) = if bytes_eq status (codes "success") then data_of d else failed

unfoldable pub do_query : Answered → Result PrometheusData
unfolding api_data bytes_eq
do_query unanswered = failed
do_query (answered status api) = if status == 200 then api_data api else failed

-- `Execute`; `ask` is the HTTP request, on a path with its parameters.
unfoldable pub execute :
    (Value → Bytes)
    → (Bytes → Option ℕ)
    → ℤ
    → Bool
    → QueryRequest
    → (Bytes × Query → Answered)
    → Result Converted
unfolding prepare do_query convert_response
execute sprint parse_float max_data_points available req ask = do
  asked ← prepare sprint available req
  d ← do_query (ask asked)
  convert_response parse_float max_data_points d

-- Whether the API answered with the status 200: `Connect` and `HealthCheck`.
unfoldable pub connect : Bool → Option ℕ → Bool
connect true status = true
connect false none = false
connect false (some status) = status == 200

unfoldable pub health_check : Option ℕ → Bool
health_check none = false
health_check (some status) = status == 200
