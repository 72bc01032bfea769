-- ===== src/Prometheus/Response/Warned.antt =====
-- What the conversion keeps and what it leaves out.
use mountain_king.Datasource.Request.{QueryRequest}
use mountain_king.Errors.{ok, >>=-eq-ok, ok-injective}
use mountain_king.Prelude.{
  ℕ, ◌+◌, ◌≡◌, ◌≤◌, ◌⊎◌, Bool-cases, refl, sym, ap, ◌%◌, ◌^◌, ◌==◌, ltb, codes, bytes_eq_iff, subst,
  Bool, true, false, Option, none, some, List, [], ◌∷◌, ◌++◌, Bytes, length, length-append, arith,
  inl, inr,
}
use mountain_king.Prelude.Int.{ℤ, pos, ltb_ℤ, ◌≤ℤ◌}
use mountain_king.Prometheus.Builder.{Query, prepare}
use mountain_king.Prometheus.Response.{
  Cause, Pair, Series, PrometheusData, vector, matrix, scalar, text_result, other_result, Point,
  Row, sample, range_row, text_row, raw_row, Converted, convert_value, parse_value, parse_parts,
  parse_timestamp_value, points_of, vector_rows, convert_vector, total_points, matrix_rows,
  convert_matrix, convert_scalar, convert_string, convert_response, do_query, Answered, answered,
  unanswered, execute,
}
use mountain_king.Template.Params.{is_finite}
use mountain_king.Value.{Value}

-- The points of a row and of a result.
abbrev pub row_points : Row → List Point
row_points (sample metric point) = point ∷ []
row_points (range_row metric points) = points
row_points (text_row ts s) = []
row_points (raw_row name raw) = []

abbrev pub points_in : List Row → List Point
points_in [] = []
points_in (row ∷ rows) = row_points row ++ points_in rows

abbrev missing : Option ℕ → ℕ
missing none = 1
missing (some bits) = 0

-- The points without a value.
abbrev pub count_missing : List Point → ℕ
count_missing [] = 0
count_missing (p ∷ ps) = missing p.value + count_missing ps

-- The pairs of an answer of Prometheus, in their order.
abbrev pub series_pairs : List (Series Pair) → List Pair
series_pairs [] = []
series_pairs (r ∷ rs) = r.points ∷ series_pairs rs

abbrev pub range_pairs : List (Series (List Pair)) → List Pair
range_pairs [] = []
range_pairs (r ∷ rs) = r.points ++ range_pairs rs

abbrev pub pairs_in : PrometheusData → List Pair
pairs_in (vector (some rs)) = series_pairs rs
pairs_in (matrix (some rs)) = range_pairs rs
pairs_in (scalar (some pair)) = pair ∷ []
pairs_in d = []

abbrev pub moment_of : Option ℕ → ℕ
moment_of none = 0
moment_of (some ts) = ts

count_missing-append :
    (ps qs : List Point) → count_missing (ps ++ qs) ≡ count_missing ps + count_missing qs
count_missing-append [] qs = omega arith
count_missing-append (p ∷ ps) qs = omega (arith, count_missing-append ps qs)

within_limit : (most : ℤ) (m n : ℕ) → m ≡ n → ltb_ℤ most (pos n) ≡ false → pos m ≤ℤ most
within_limit most m n same h = ground arith

do_query-answered :
    (answer : Answered) (d : PrometheusData)
    → do_query answer ≡ ok d
    → answer ≡ answered 200 (some (codes "success", some d))
unfolding do_query
do_query-answered unanswered d h = cc
do_query-answered (answered status none) d h = ground arith
do_query-answered (answered status (some (state, none))) d h = ground arith
do_query-answered (answered status (some (state, some d'))) d h =
    ground (arith, bytes_eq_iff state (codes "success"))

module _ (parse_float : Bytes → Option ℕ) (max_data_points : ℤ) where
  -- A value that is there is the finite number that stands in the text of its pair.
  abbrev pub HasValue : Pair → Option ℕ → Type 0
  HasValue pair none = Unit
  HasValue pair (some bits) =
      (s : Bytes) × (pair.text ≡ some s) × (parse_float s ≡ some bits) × (is_finite bits ≡ true)

  -- One point for each pair, in their order, with its moment and with its value or none.
  abbrev pub AreRead : List Pair → List Point → Type 0
  AreRead [] [] = Unit
  AreRead [] (q ∷ qs) = ⊥
  AreRead (p ∷ ps) [] = ⊥
  AreRead (p ∷ ps) (q ∷ qs) =
      (q.timestamp ≡ moment_of p.timestamp) × HasValue p q.value × AreRead ps qs

  -- The points are those of the pairs, with a warning for each value that is missing.
  pub record IsFaithful (pairs : List Pair) (points : List Point) (warnings : List Cause)
      : Type 0 where
    pub warned : length warnings ≡ count_missing points
    pub read : AreRead pairs points

  AreRead-append :
      (ps qs : List Pair) (xs ys : List Point)
      → AreRead ps xs
      → AreRead qs ys
      → AreRead (ps ++ qs) (xs ++ ys)
  AreRead-append [] qs [] ys h k = k
  AreRead-append [] qs (x ∷ xs) ys h k = absurd h
  AreRead-append (p ∷ ps) qs [] ys h k = absurd h
  AreRead-append (p ∷ ps) qs (x ∷ xs) ys (t, v, h) k = (t, v, AreRead-append ps qs xs ys h k)

  append-IsFaithful :
      (ps qs : List Pair) (xs ys : List Point) (v w : List Cause)
      → IsFaithful ps xs v
      → IsFaithful qs ys w
      → IsFaithful (ps ++ qs) (xs ++ ys) (v ++ w)
  append-IsFaithful ps qs xs ys v w h k =
      let a = h.warned in
      let b = k.warned in
      record {
        warned = omega (arith, length-append v w, count_missing-append xs ys);
        read = AreRead-append ps qs xs ys h.read k.read;
      }

  convert_value-HasValue :
      (pair : Pair) (s : Bytes) (bits : ℕ)
      → pair.text ≡ some s
      → parse_float s ≡ some bits
      → (length (convert_value bits).1 ≡ missing (convert_value bits).0)
        × HasValue pair (convert_value bits).0
  unfolding convert_value
  convert_value-HasValue pair s bits text parsed = elim (Bool-cases (is_finite bits)) [
    | inl finite ↦ rw finite (refl, (s, text, parsed, finite))
    | inr infinite ↦ elim (Bool-cases (bits % 2 ^ 52 == 0)) [
      | inl whole ↦ elim (Bool-cases (ltb bits (2 ^ 63))) [
        | inl plus ↦ rw (infinite, whole, plus) (refl, tt)
        | inr minus ↦ rw (infinite, whole, minus) (refl, tt)
      ]
      | inr part ↦ rw (infinite, part) (refl, tt)
    ]
  ]

  parse_value-IsFaithful :
      (pair : Pair) (ts : ℕ) (s : Bytes) (found : Option ℕ)
      → pair.timestamp ≡ some ts
      → pair.text ≡ some s
      → parse_float s ≡ found
      → IsFaithful
          (pair ∷ [])
          ((parse_value parse_float max_data_points ts found).0 ∷ [])
          (parse_value parse_float max_data_points ts found).1
  unfolding parse_value
  parse_value-IsFaithful pair ts s none at text parsed = record {
    warned = refl;
    read = (ap moment_of (sym at), tt, tt);
  }
  parse_value-IsFaithful pair ts s (some bits) at text parsed =
      let (warned, value) = convert_value-HasValue pair s bits text parsed in
      record { warned = omega arith; read = (ap moment_of (sym at), value, tt) }

  parse_parts-IsFaithful :
      (pair : Pair) (ts : Option ℕ) (text : Option Bytes)
      → pair.timestamp ≡ ts
      → pair.text ≡ text
      → IsFaithful
          (pair ∷ [])
          ((parse_parts parse_float max_data_points ts text).0 ∷ [])
          (parse_parts parse_float max_data_points ts text).1
  unfolding parse_parts
  parse_parts-IsFaithful pair none text at h = record {
    warned = refl;
    read = (ap moment_of (sym at), tt, tt);
  }
  parse_parts-IsFaithful pair (some ts) none at h = record {
    warned = refl;
    read = (ap moment_of (sym at), tt, tt);
  }
  parse_parts-IsFaithful pair (some ts) (some s) at h =
      parse_value-IsFaithful pair ts s (parse_float s) at h refl

  parse-IsFaithful :
      (pair : Pair)
      → IsFaithful
          (pair ∷ [])
          ((parse_timestamp_value parse_float max_data_points pair).0 ∷ [])
          (parse_timestamp_value parse_float max_data_points pair).1
  unfolding parse_timestamp_value
  parse-IsFaithful pair = parse_parts-IsFaithful pair pair.timestamp pair.text refl refl

  points_of-IsFaithful :
      (pairs : List Pair)
      → IsFaithful pairs
          (points_of parse_float max_data_points pairs).0
          (points_of parse_float max_data_points pairs).1
        × (length (points_of parse_float max_data_points pairs).0 ≡ length pairs)
  unfolding points_of
  points_of-IsFaithful [] = (record { warned = refl; read = tt }, refl)
  points_of-IsFaithful (pair ∷ pairs) =
      let (rest, same) = points_of-IsFaithful pairs in
      (append-IsFaithful (pair ∷ []) pairs (_ ∷ []) _ _ _ (parse-IsFaithful pair) rest, omega arith)

  vector_rows-IsFaithful :
      (rs : List (Series Pair))
      → IsFaithful
          (series_pairs rs)
          (points_in (vector_rows parse_float max_data_points rs).rows)
          (vector_rows parse_float max_data_points rs).warnings
        × (length (points_in (vector_rows parse_float max_data_points rs).rows) ≡ length rs)
  unfolding vector_rows
  vector_rows-IsFaithful [] = (record { warned = refl; read = tt }, refl)
  vector_rows-IsFaithful (r ∷ rs) =
      let (rest, same) = vector_rows-IsFaithful rs in
      (
        append-IsFaithful (r.points ∷ []) (series_pairs rs) (_ ∷ []) _ _ _
            (parse-IsFaithful r.points) rest,
        omega arith,
      )

  matrix_rows-IsFaithful :
      (rs : List (Series (List Pair)))
      → IsFaithful
          (range_pairs rs)
          (points_in (matrix_rows parse_float max_data_points rs).rows)
          (matrix_rows parse_float max_data_points rs).warnings
        × (length (points_in (matrix_rows parse_float max_data_points rs).rows)
            ≡ total_points parse_float max_data_points rs)
  unfolding matrix_rows total_points
  matrix_rows-IsFaithful [] = (record { warned = refl; read = tt }, refl)
  matrix_rows-IsFaithful (r ∷ rs) =
      let (rest, same) = matrix_rows-IsFaithful rs in
      let (here, count) = points_of-IsFaithful r.points in
      (
        append-IsFaithful r.points (range_pairs rs) _ _ _ _ here rest,
        omega (
          arith,
          length-append (points_of parse_float max_data_points r.points).0
              (points_in (matrix_rows parse_float max_data_points rs).rows),
        ),
      )

  -- The points of an answer against the pairs that Prometheus sent, its warnings, and the limit.
  abbrev pub IsSound : PrometheusData → Converted → Type 0
  IsSound d c =
      IsFaithful (pairs_in d) (points_in c.rows) c.warnings
      × ((length (points_in c.rows) ≤ 1) ⊎ (pos (length (points_in c.rows)) ≤ℤ max_data_points))

  convert_vector-IsSound :
      (raw : Option (List (Series Pair))) (c : Converted)
      → convert_vector parse_float max_data_points raw ≡ ok c
      → IsSound (vector raw) c
  unfolding convert_vector
  convert_vector-IsSound none c h = cc
  convert_vector-IsSound (some rs) c h =
      let (faithful, same) = vector_rows-IsFaithful rs in
      elim (Bool-cases (ltb_ℤ max_data_points (pos (length rs)))) [
        | inl over ↦ cc
        | inr within ↦
            subst (IsSound (vector (some rs))) (ok-injective (rw within at h))
              (faithful, inr (within_limit max_data_points _ _ same within))
      ]

  convert_matrix-IsSound :
      (raw : Option (List (Series (List Pair)))) (c : Converted)
      → convert_matrix parse_float max_data_points raw ≡ ok c
      → IsSound (matrix raw) c
  unfolding convert_matrix
  convert_matrix-IsSound none c h = cc
  convert_matrix-IsSound (some rs) c h =
      let (faithful, same) = matrix_rows-IsFaithful rs in
      elim (Bool-cases
        (ltb_ℤ max_data_points (pos (total_points parse_float max_data_points rs)))) [
          | inl over ↦ cc
          | inr within ↦
              subst (IsSound (matrix (some rs))) (ok-injective (rw within at h))
                (faithful, inr (within_limit max_data_points _ _ same within))
        ]

  text-IsSound :
      (ts : Option ℕ) (s : Option Bytes) (c : Converted)
      → convert_string parse_float max_data_points (some (record { timestamp = ts; text = s }))
        ≡ ok c
      → IsSound (text_result (some (record { timestamp = ts; text = s }))) c
  unfolding convert_string
  text-IsSound none s c h = cc
  text-IsSound (some ts) none c h = cc
  text-IsSound (some ts) (some s) c h =
      subst (IsSound (text_result (some (record { timestamp = some ts; text = some s }))))
        (ok-injective h) (record { warned = refl; read = tt }, inl (omega arith))

  convert_response-IsSound :
      (d : PrometheusData) (c : Converted)
      → convert_response parse_float max_data_points d ≡ ok c
      → IsSound d c
  unfolding convert_response convert_scalar convert_string
  convert_response-IsSound (vector raw) c h = convert_vector-IsSound raw c h
  convert_response-IsSound (matrix raw) c h = convert_matrix-IsSound raw c h
  convert_response-IsSound (scalar none) c h = cc
  convert_response-IsSound (scalar (some pair)) c h =
      subst (IsSound (scalar (some pair))) (ok-injective h)
        (parse-IsFaithful pair, inl (omega arith))
  convert_response-IsSound (text_result none) c h = cc
  convert_response-IsSound (text_result (some pair)) c h = text-IsSound pair.timestamp pair.text c h
  convert_response-IsSound (other_result name raw) c h =
      subst (IsSound (other_result name raw)) (ok-injective h)
        (record { warned = refl; read = tt }, inl (omega arith))

  -- The answer to a query comes from data that the HTTP API sent with the status 200 and `success`, and
  -- has one point for each pair of a vector, a matrix or a scalar in them, in their order and with its
  -- moment, 0 where that cannot be read: with the finite number that the text of the pair stands for, or
  -- without a value and with a warning. No pair is left out, and there are no more points than the
  -- limit, or a single one.
  pub execute-IsSound :
      (sprint : Value → Bytes) (available : Bool) (req : QueryRequest)
      (ask : Bytes × Query → Answered) (c : Converted)
      → execute sprint parse_float max_data_points available req ask ≡ ok c
      → (asked : Bytes × Query) × (d : PrometheusData) × (ask asked
          ≡ answered 200 (some (codes "success", some d)))
        × IsSound d c
  unfolding execute
  execute-IsSound sprint available req ask c h =
      let (asked, _, h') = >>=-eq-ok (prepare sprint available req) _ c h in
      let (d, sent, e) = >>=-eq-ok (do_query (ask asked)) _ c h' in
      (asked, d, do_query-answered (ask asked) d sent, convert_response-IsSound d c e)
