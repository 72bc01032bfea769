-- ===== src/Resolver/Prometheus/Lost.antt =====
-- What becomes of the samples of Prometheus on their way to the client.
use mountain_king.Errors.{ok}
use mountain_king.Prelude.{
  ℕ, ◌≡◌, refl, ap, false, Option, some, List, [], ◌∷◌, Bytes, codes, map, bytes_eq, length,
}
use mountain_king.Prelude.Int.{ℤ, pos, ltb_ℤ}
use mountain_king.Prometheus.Response.{
  Pair, Series, vector, matrix, parse_timestamp_value, convert_response, convert_vector,
  convert_matrix, vector_rows, matrix_rows, total_points,
}
use mountain_king.Resolver.Prometheus.{
  row_fields, Numerics, PrometheusVector, PrometheusMatrix, InstantResult, RangeResult, to_float64,
  extract_metric_labels, extract_data_point, extract_data_points, convert_to_instant_result,
  convert_to_range_result, prometheus_instant, prometheus_range,
}
use mountain_king.Value.{lookup_field}

module _ (n : Numerics) (parse_float : Bytes → Option ℕ) (max_data_points : ℤ) where
  -- The moment of a sample, as the adapter reads it.
  abbrev pub moment : Pair → ℕ
  moment pair = (parse_timestamp_value parse_float max_data_points pair).0.timestamp

  -- A vector without labels, of value 0.
  abbrev pub blank_vector : Series Pair → PrometheusVector
  blank_vector r = record {
    metric = [];
    point = record { timestamp = moment r.points; value = some 0 };
  }

  -- A series without labels and without points.
  abbrev pub blank_matrix : Series (List Pair) → PrometheusMatrix
  blank_matrix r = record { metric = []; points = [] }

  vectors-vector_rows :
      (rs : List (Series Pair))
      → (convert_to_instant_result n
          (map row_fields (vector_rows parse_float max_data_points rs).rows)).vectors
        ≡ map blank_vector rs
  unfolding convert_to_instant_result vector_rows extract_data_point extract_metric_labels
      to_float64 lookup_field bytes_eq
  vectors-vector_rows [] = refl
  vectors-vector_rows (r ∷ rs) = ap (λ vs. blank_vector r ∷ vs) (vectors-vector_rows rs)

  matrices-matrix_rows :
      (rs : List (Series (List Pair)))
      → (convert_to_range_result n
          (map row_fields (matrix_rows parse_float max_data_points rs).rows)).matrices
        ≡ map blank_matrix rs
  unfolding convert_to_range_result matrix_rows extract_data_points extract_metric_labels
      lookup_field bytes_eq
  matrices-matrix_rows [] = refl
  matrices-matrix_rows (r ∷ rs) = ap (λ vs. blank_matrix r ∷ vs) (matrices-matrix_rows rs)

  instant_of :
      (rs : List (Series Pair))
      → convert_to_instant_result n
          (map row_fields (vector_rows parse_float max_data_points rs).rows)
        ≡ record { result_type = codes "vector"; vectors = map blank_vector rs }
  unfolding convert_to_instant_result vector_rows lookup_field bytes_eq
  instant_of [] = refl
  instant_of (r ∷ rs) = let same = vectors-vector_rows (r ∷ rs) in cc

  range_of :
      (rs : List (Series (List Pair)))
      → convert_to_range_result n (map row_fields (matrix_rows parse_float max_data_points rs).rows)
        ≡ record { result_type = codes "matrix"; matrices = map blank_matrix rs }
  unfolding convert_to_range_result matrix_rows lookup_field bytes_eq
  range_of [] = refl
  range_of (r ∷ rs) = let same = matrices-matrix_rows (r ∷ rs) in cc

  -- Whatever vector Prometheus answers within the limit, the client of an instant query gets as many
  -- vectors, each with its moment, but without labels and with the value 0; and whatever matrix it
  -- answers within the limit, the client of a range query gets as many series, without labels and
  -- without points.
  pub convert_response-lost :
      (rs : List (Series Pair)) (ss : List (Series (List Pair)))
      → ltb_ℤ max_data_points (pos (length rs)) ≡ false
      → ltb_ℤ max_data_points (pos (total_points parse_float max_data_points ss)) ≡ false
      → (prometheus_instant n (convert_response parse_float max_data_points (vector (some rs)))
          ≡ ok (record { result_type = codes "vector"; vectors = map blank_vector rs }))
        × (prometheus_range n (convert_response parse_float max_data_points (matrix (some ss)))
            ≡ ok (record { result_type = codes "matrix"; matrices = map blank_matrix ss }))
  unfolding convert_response convert_vector convert_matrix prometheus_instant prometheus_range
  convert_response-lost rs ss few few' = (
    rw few (ap (λ (r : InstantResult). ok r) (instant_of rs)),
    rw few' (ap (λ (r : RangeResult). ok r) (range_of ss)),
  )
