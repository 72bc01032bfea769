-- ===== src/Prometheus/Builder.antt =====
-- internal/adapter/prometheus/query_builder.go, and `Execute` of adapter.go up to `doQuery`. The text
-- of a value is `fmt.Sprintf("%v", value)`, of the package fmt: the parameter `sprint`.
use mountain_king.Prelude.{
  Bool, Option, none, some, List, [], ◌∷◌, ◌++◌, Bytes, codes, join, if◌then◌else◌,
}
use mountain_king.Value.{Value, string, lookup_field}
use mountain_king.Errors.{
  Result, ok, ◌>>=◌, ◌>>◌, datasource_error, err_datasource_query_error, err_datasource_unavailable,
}
use mountain_king.Datasource.Request.{FilterOperator, eq, neq, like, FilterCondition, QueryRequest}
use mountain_king.Prometheus.Validator.{validate_label_value, validate_query_expression}

unfoldable pub filter_op_to_label_match : FilterOperator → Option Bytes
filter_op_to_label_match eq = some (codes "=")
filter_op_to_label_match neq = some (codes "!=")
filter_op_to_label_match like = some (codes "=~")
filter_op_to_label_match op = none

-- `v.(string)` that is not empty; the error of fmt otherwise.
unfoldable pub non_empty : Option Value → Option Bytes
non_empty (some (string (c ∷ s))) = some (c ∷ s)
non_empty (some v) = none
non_empty none = none

unfoldable pub extract_required_option : QueryRequest → Bytes → Option Bytes
unfolding non_empty lookup_field
extract_required_option req key = non_empty (lookup_field key req.options)

unfoldable pub extract_query : QueryRequest → Option Bytes
unfolding extract_required_option
extract_query req = extract_required_option req (codes "query")

-- A query, and `url.Values` as the keys that are set, in this order.
abbrev pub Query : Type 0
Query = Bytes × List (Bytes × Bytes)

infixl 5 ◌>>=?◌
abbrev ◌>>=?◌ : {A B : Type 0} → Option A → (A → Option B) → Option B
none >>=? f = none
some a >>=? f = f a

-- `%s%s"%s"`.
unfoldable pub matcher : Bytes → Bytes → Bytes → Bytes
matcher field match value = field ++ (match ++ (b'"' ∷ (value ++ b'"' ∷ [])))

unfoldable pub braced : Bytes → List Bytes → Bytes
unfolding join
braced query [] = query
braced query (m ∷ ms) = query ++ (b'{' ∷ (join (m ∷ ms) (codes ", ") ++ b'}' ∷ []))

module _ (sprint : Value → Bytes) where
  unfoldable pub matchers : List FilterCondition → List Bytes
  unfolding matcher filter_op_to_label_match
  matchers [] = []
  matchers (f ∷ fs) =
      let rest = matchers fs in
      elim (filter_op_to_label_match f.operator) [
        | none ↦ rest
        | some match ↦ matcher f.field match (sprint f.value) ∷ rest
      ]

  unfoldable pub append_label_matchers : Bytes → List FilterCondition → Bytes
  unfolding matchers braced
  append_label_matchers query filters = braced query (matchers filters)

  unfoldable pub build_instant : QueryRequest → Option Query
  unfolding extract_query append_label_matchers
  build_instant req = extract_query req >>=? λ base.
      let query = append_label_matchers base req.filters in
      elim (non_empty (lookup_field (codes "time") req.options)) [
        | none ↦ some (query, (codes "query", query) ∷ [])
        | some time ↦ some (query, (codes "query", query) ∷ (codes "time", time) ∷ [])
      ]

  unfoldable pub build_range : QueryRequest → Option Query
  unfolding extract_query extract_required_option append_label_matchers
  build_range req = extract_query req >>=? λ base.
      let query = append_label_matchers base req.filters in
      extract_required_option req (codes "startTime") >>=? λ start.
      extract_required_option req (codes "endTime") >>=? λ end_time.
      extract_required_option req (codes "step") >>=? λ step. some (
        query,
        (codes "query", query)
            ∷ (codes "start", start)
            ∷ (codes "end", end_time)
            ∷ (codes "step", step)
            ∷ [],
      )

  unfoldable pub validate_values : List FilterCondition → Result (Unit {0})
  validate_values [] = ok tt
  validate_values (f ∷ fs) = do validate_label_value (sprint f.value); validate_values fs

  unfoldable pub validate_base : Option Value → Result (Unit {0})
  validate_base (some (string (c ∷ s))) = validate_query_expression (c ∷ s)
  validate_base (some v) = ok tt
  validate_base none = ok tt

  unfoldable pub or_query_error : Option Query → Result Query
  or_query_error none = datasource_error err_datasource_query_error
  or_query_error (some q) = ok q

  -- `Execute`, up to the call of `doQuery`: its path and parameters.
  unfoldable pub prepare : Bool → QueryRequest → Result (Bytes × Query)
  unfolding validate_values validate_base build_instant build_range lookup_field or_query_error
  prepare available req = do
    if available then ok tt else datasource_error err_datasource_unavailable
    validate_values req.filters
    validate_base (lookup_field (codes "query") req.options)
    elim (lookup_field (codes "startTime") req.options) [
      | none ↦ do q ← or_query_error (build_instant req); ok (codes "/api/v1/query", q)
      | some _ ↦ do q ← or_query_error (build_range req); ok (codes "/api/v1/query_range", q)
    ]
