-- ===== src/Resolver/Prometheus/Tests.antt =====
-- A vector and a matrix of one series each.
use mountain_king.Errors.{ok}
use mountain_king.Prelude.{ℕ, ◌≡◌, refl, Option, some, List, [], ◌∷◌, Bytes, codes, map, bytes_eq}
use mountain_king.Prelude.Int.{pos}
use mountain_king.Prometheus.Response.{Pair, Series, vector, matrix, convert_response, total_points}
use mountain_king.Resolver.Prometheus.{
  Numerics, extract_data_point, extract_data_points, extract_metric_labels, to_float64,
  convert_to_instant_result, prometheus_instant, prometheus_range,
}
use mountain_king.Resolver.Prometheus.Lost.{blank_vector, blank_matrix, convert_response-lost}
use mountain_king.Value.{
  Fields, field, end, object, slice, cons, nil, string, float64, lookup_field,
}

abbrev numerics : Numerics
numerics = record {
  sprint = λ v. codes "x";
  of_int = λ z. 0;
  of_float32 = λ b. 0;
  parse_float = λ s. 0;
}

-- A row in the shape that the resolver reads.
abbrev row : Fields
row =
    field (codes "metric") (object (field (codes "job") (string (codes "x")) end))
      (field (codes "timestamp") (float64 7) (field (codes "value") (float64 9) end))

kept :
    (convert_to_instant_result numerics (row ∷ [])).vectors
    ≡ record {
      metric = record { name = codes "job"; value = codes "x" } ∷ [];
      point = record { timestamp = 7; value = some 9 };
    }
      ∷ []
unfolding convert_to_instant_result extract_data_point extract_metric_labels to_float64 lookup_field
    bytes_eq
kept = refl

points :
    extract_data_points numerics
      (field (codes "values") (slice (cons (object row) (cons (float64 1) nil))) end)
    ≡ record { timestamp = 7; value = some 9 } ∷ []
unfolding extract_data_points extract_data_point to_float64 lookup_field bytes_eq
points = refl

abbrev parse_float : Bytes → Option ℕ
parse_float s = some 0x3FF0000000000000

abbrev pair : Pair
pair = record { timestamp = some 7; text = some (codes "1") }

abbrev series : Series Pair
series = record { metric = (codes "job", codes "x") ∷ []; points = pair }

abbrev range_series : Series (List Pair)
range_series = record { metric = (codes "job", codes "x") ∷ []; points = pair ∷ [] }

convert_response-lost_example :
    (prometheus_instant numerics
        (convert_response parse_float (pos 9) (vector (some (series ∷ []))))
      ≡ ok (record {
        result_type = codes "vector";
        vectors = map (blank_vector numerics parse_float (pos 9)) (series ∷ []);
      }))
    × (prometheus_range numerics
          (convert_response parse_float (pos 9) (matrix (some (range_series ∷ []))))
        ≡ ok (record {
          result_type = codes "matrix";
          matrices = map (blank_matrix numerics parse_float (pos 9)) (range_series ∷ []);
        }))
unfolding total_points
convert_response-lost_example =
    convert_response-lost numerics parse_float (pos 9) (series ∷ []) (range_series ∷ []) refl refl
