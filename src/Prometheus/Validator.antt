-- ===== src/Prometheus/Validator.antt =====
-- internal/adapter/prometheus/validator.go. Text is ASCII, so a rune is a byte and `strings.ToLower`
-- moves letters only.
use mountain_king.Prelude.{
  ℕ, ◌+◌, ◌-◌, Bool, ◌||◌, ◌&&◌, List, [], ◌∷◌, Bytes, codes, map, any, ltb, leb, ◌==◌, has_prefix,
  if◌then◌else◌,
}
use mountain_king.Errors.{Result, ok, validation_error, err_validation_promql_injection}

-- `promqlSpecialChars`.
abbrev pub is_special : ℕ → Bool
is_special c = c == b'}' || (c == b'{' || (c == b'|' || (c == b'~' || c == b'"')))

unfoldable pub validate_label_value : Bytes → Result (Unit {0})
validate_label_value value =
    if any is_special value then validation_error err_validation_promql_injection else ok tt

abbrev pub max_subquery_depth : ℕ
max_subquery_depth = 2

-- The loop over the runes, from `depth` and `maxDepth`.
unfoldable pub deepest : ℕ → ℕ → Bytes → ℕ
deepest depth most [] = most
deepest depth most (c ∷ s) =
    let opened = deepest (depth + 1) (if ltb most (depth + 1) then depth + 1 else most) s in
    let closed = deepest (depth - 1) most s in
    let same = deepest depth most s in
    if c == b'[' then opened else if c == b']' then closed else same

unfoldable pub to_lower : ℕ → ℕ
to_lower c = if leb b'A' c && leb c b'Z' then c + 32 else c

-- `strings.Contains`.
unfoldable pub contains_text : Bytes → Bytes → Bool
contains_text [] part = has_prefix [] part
contains_text (c ∷ s) part = has_prefix (c ∷ s) part || contains_text s part

abbrev pub high_cost_ops : List Bytes
high_cost_ops = codes "group_left" ∷ codes "group_right" ∷ []

unfoldable pub validate_query_expression : Bytes → Result (Unit {0})
unfolding deepest to_lower contains_text
validate_query_expression query =
    if ltb max_subquery_depth (deepest 0 0 query)
    then validation_error err_validation_promql_injection
    else if any (contains_text (map to_lower query)) high_cost_ops
    then validation_error err_validation_promql_injection
    else ok tt
