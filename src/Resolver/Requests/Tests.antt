-- ===== src/Resolver/Requests/Tests.antt =====
-- Requests of concrete arguments.
use mountain_king.Prelude.{◌≡◌, refl, Option, none, some, List, [], ◌∷◌, Bytes, codes, join}
use mountain_king.Value.{Value, string}
use mountain_king.Prometheus.Builder.{
  append_label_matchers, matchers, braced, matcher, filter_op_to_label_match,
}
use mountain_king.Resolver.Requests.{
  PrometheusLabelFilter, exact, not_regex, build_prometheus_instant_request, convert_labels,
}
use mountain_king.Resolver.Requests.Dropped.{without_not_regex, without-append_label_matchers}

abbrev sprint : Value → Bytes
sprint (string s) = s
sprint v = []

-- Two label filters, one of them by a negated regular expression.
abbrev labels : List (Option PrometheusLabelFilter)
labels =
    some (record { name = codes "job"; value = codes "api"; match_type = exact })
    ∷ none
    ∷ some (record { name = codes "env"; value = codes "test.*"; match_type = not_regex })
    ∷ []

lost :
    append_label_matchers sprint
      (codes "up")
      (build_prometheus_instant_request (codes "up") none labels).filters
    ≡ codes "up{job=\"api\"}"
unfolding append_label_matchers matchers braced matcher filter_op_to_label_match join
    build_prometheus_instant_request convert_labels
lost = refl

without-append_label_matchers_example :
    append_label_matchers sprint
      (codes "up")
      (build_prometheus_instant_request (codes "up") none labels).filters
    ≡ append_label_matchers sprint
        (codes "up")
        (build_prometheus_instant_request (codes "up") none (without_not_regex labels)).filters
without-append_label_matchers_example =
    without-append_label_matchers sprint (codes "up") none labels
