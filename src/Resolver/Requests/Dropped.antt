-- ===== src/Resolver/Requests/Dropped.antt =====
-- Label filters that get lost between the schema and the query.
use mountain_king.Prelude.{◌≡◌, refl, ap, Option, none, some, List, [], ◌∷◌, Bytes, arith}
use mountain_king.Value.{Value}
use mountain_king.Prometheus.Builder.{
  matchers, braced, append_label_matchers, filter_op_to_label_match,
}
use mountain_king.Resolver.Requests.{
  not_regex, PrometheusLabelFilter, convert_labels, build_prometheus_instant_request,
}

-- The filters whose match type is not that of a negated regular expression.
unfoldable pub without_not_regex :
    List (Option PrometheusLabelFilter) → List (Option PrometheusLabelFilter)
without_not_regex [] = []
without_not_regex (none ∷ fs) = without_not_regex fs
without_not_regex (some f ∷ fs) =
    let rest = without_not_regex fs in elim f.match_type [ not_regex ↦ rest | _ ↦ some f ∷ rest ]

module _ (sprint : Value → Bytes) where
  matchers-without :
      (fs : List (Option PrometheusLabelFilter))
      → matchers sprint (convert_labels fs)
        ≡ matchers sprint (convert_labels (without_not_regex fs))
  unfolding matchers convert_labels without_not_regex filter_op_to_label_match
  matchers-without [] = refl
  matchers-without (none ∷ fs) = matchers-without fs
  matchers-without (some f ∷ fs) = ground (arith, matchers-without fs)

  -- A filter by a negated regular expression adds nothing to the PromQL of an instant query: its text is
  -- the same with all such filters taken away.
  pub without-append_label_matchers :
      (query : Bytes) (time : Option Bytes) (filters : List (Option PrometheusLabelFilter))
      → append_label_matchers sprint query
          (build_prometheus_instant_request query time filters).filters
        ≡ append_label_matchers sprint query
            (build_prometheus_instant_request query time (without_not_regex filters)).filters
  unfolding append_label_matchers build_prometheus_instant_request
  without-append_label_matchers query time filters = ap (braced query) (matchers-without filters)
