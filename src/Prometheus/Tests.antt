-- ===== src/Prometheus/Tests.antt =====
-- Queries of concrete requests.
use mountain_king.Prometheus.Matchers.{IsClosed, skeleton-append_label_matchers}
use mountain_king.Prometheus.Lexer.{skeleton, outside}
use mountain_king.Prelude.{has_prefix, ◌≡◌, refl, List, [], ◌∷◌, ◌++◌, Bytes, codes, arith, join}
use mountain_king.Value.{Value, string}
use mountain_king.Errors.{validation_error, err_validation_promql_injection}
use mountain_king.Datasource.Request.{FilterCondition, eq}
use mountain_king.Prometheus.Builder.{
  append_label_matchers, matchers, braced, matcher, filter_op_to_label_match, validate_values,
}
use mountain_king.Prometheus.Validator.{
  validate_query_expression, validate_label_value, deepest, to_lower, contains_text,
}

-- The text of the values of these tests.
abbrev text_of : Value → Bytes
text_of (string s) = s
text_of v = []

-- A filter on a value, with the operator of equality.
abbrev equals : Bytes → Value → FilterCondition
equals field value = record { field = field; operator = eq; value = value }

abbrev two_filters : List FilterCondition
two_filters =
    equals (codes "job") (string (codes "api")) ∷ equals (codes "env") (string (codes "prod")) ∷ []

append_label_matchers_two :
    append_label_matchers text_of (codes "up") two_filters ≡ codes "up{job=\"api\", env=\"prod\"}"
unfolding append_label_matchers matchers braced matcher filter_op_to_label_match join
append_label_matchers_two = refl

validate_query_expression_deep :
    validate_query_expression (codes "a[1][[[2]]]")
    ≡ validation_error err_validation_promql_injection
unfolding validate_query_expression deepest to_lower contains_text
validate_query_expression_deep = refl

validate_query_expression_join :
    validate_query_expression (codes "a * on(b) Group_Left c")
    ≡ validation_error err_validation_promql_injection
unfolding validate_query_expression deepest to_lower contains_text has_prefix
validate_query_expression_join = refl

up-IsClosed : IsClosed (codes "up")
unfolding skeleton
up-IsClosed = record { apply = λ rest. refl }

skeleton-append_label_matchers_example :
    skeleton outside (append_label_matchers text_of (codes "up") two_filters)
    ≡ skeleton outside (codes "up") ++ append_label_matchers (λ _. []) [] two_filters
unfolding validate_values validate_label_value
skeleton-append_label_matchers_example =
    skeleton-append_label_matchers text_of (codes "up") two_filters up-IsClosed refl (
      record { label = omega arith; plain = omega arith },
      (record { label = omega arith; plain = omega arith }, tt),
    )
