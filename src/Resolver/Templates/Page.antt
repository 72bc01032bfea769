-- ===== src/Resolver/Templates/Page.antt =====
-- The page of a template query, and whether there is a next one.
use mountain_king.Errors.{ok}
use mountain_king.Prelude.{
  ℕ, zero, suc, ◌≡◌, ◌≤◌, refl, ap, ◌∙◌, sym, Bool, true, Bool-cases, inl, inr, Option, none, some,
  List, [], ◌∷◌, Bytes, length, ltb, arith,
}
use mountain_king.Prelude.Int.{ℤ, pos, negsuc}
use mountain_king.Resolver.Templates.{
  Answer, Outcome, returned, panicked, cut_first, cap_rows, connected, answered, template_query,
  skip_cache_requested, build_template_query_connection,
}
use mountain_king.Template.Engine.{TemplateQueryRequest, TemplateQueryResult, Run}
use mountain_king.Template.Keys.{TemplateOrderByParam}
use mountain_king.Template.Registry.{take}
use mountain_king.Value.{Value, Fields}

take-all : (n : ℕ) (rows : List Fields) → length rows ≤ n → take n rows ≡ rows
unfolding take
take-all zero [] h = refl
take-all zero (r ∷ rows) h = absurd (omega arith)
take-all (suc n) [] h = refl
take-all (suc n) (r ∷ rows) h = ap (λ rs. r ∷ rs) (take-all n rows (omega arith))

take-take : (n : ℕ) (rows : List Fields) → take n (take (suc n) rows) ≡ take n rows
unfolding take
take-take zero rows = refl
take-take (suc n) [] = refl
take-take (suc n) (r ∷ rows) = ap (λ rs. r ∷ rs) (take-take n rows)

ltb-length-take :
    (n : ℕ) (rows : List Fields) → ltb n (length (take (suc n) rows)) ≡ ltb n (length rows)
unfolding take
ltb-length-take zero [] = refl
ltb-length-take zero (r ∷ rows) = ground arith
ltb-length-take (suc n) [] = ground arith
ltb-length-take (suc n) (r ∷ rows) = let rest = ltb-length-take n rows in ground arith

cut_first-take :
    (n : ℕ) (rows : List Fields) → cut_first (some (pos n)) (take (suc n) rows) ≡ some (take n rows)
unfolding cut_first
cut_first-take n rows =
    let same = ltb-length-take n rows in
    elim (Bool-cases (ltb n (length rows))) [
      | inl more ↦ rw (same, more) (ap some (take-take n rows))
      | inr all ↦
          rw (same, all)
            (ap some (take-all (suc n) rows (ground arith) ∙ sym (take-all n rows (ground arith))))
    ]

cap_rows-take : (m : ℕ) (rows : List Fields) → (cap_rows (pos (suc m)) rows).0 ≡ take (suc m) rows
unfolding cap_rows
cap_rows-take m rows = elim (Bool-cases (ltb (suc m) (length rows))) [
  | inl more ↦ let positive : ltb 0 (suc m) ≡ true = ground arith in rw (positive, more) refl
  | inr all ↦
      let positive : ltb 0 (suc m) ≡ true = ground arith in
      rw (positive, all) (sym (take-all (suc m) rows (ground arith)))
]

-- What a database returns of the rows from the offset on: one more than `first`, nothing below 0.
abbrev pub fetched : ℤ → List Fields → List Fields
unfolding take
fetched (pos n) rows = take (suc n) rows
fetched (negsuc n) rows = []

-- The page of `first` rows, cut to the maximum; whether there is a next page is whether there are more
-- rows than `first`. Below 0 it is a panic.
abbrev pub IsPage : ℕ → List Fields → ℤ → Outcome → Type 0
IsPage most rows (negsuc n) outcome = outcome ≡ panicked
IsPage most rows (pos n) outcome =
    (a : Answer) × (outcome ≡ returned (ok a))
    × (a.connection.nodes ≡ take most (take n rows))
    × (a.connection.has_next_page ≡ ltb n (length rows))

cut_first-negsuc : (n : ℕ) (rows : List Fields) → cut_first (some (negsuc n)) rows ≡ none
unfolding cut_first
cut_first-negsuc n rows = refl

answered-IsPage :
    (m : ℕ) (rows : List Fields) (first : ℤ) (offset : Option ℤ) (r : TemplateQueryResult)
    → r.data_rows ≡ fetched first rows
    → IsPage (suc m) rows first (answered (pos (suc m)) (some first) offset (ok r))
unfolding answered connected build_template_query_connection
answered-IsPage m rows (negsuc n) offset r h =
    ap (connected (pos (suc m)) (some (negsuc n)) offset r) (cut_first-negsuc n r.data_rows)
answered-IsPage m rows (pos n) offset r h =
    let cut = ap (cut_first (some (pos n))) h ∙ cut_first-take n rows in
    let (kept, truncated) = cap_rows (pos (suc m)) (take n rows) in
    let size = ap length h in
    let more = ltb-length-take n rows in
    (
      record {
        connection =
            build_template_query_connection kept (length r.data_rows) r.total_count offset
              (some (pos n));
        warned = r.warned;
        truncated = truncated;
      },
      ap (connected (pos (suc m)) (some (pos n)) offset r) cut,
      cap_rows-take m (take n rows),
      ground arith,
    )

-- With a `first`, a positive maximum of rows and an engine that returns what the database has of the
-- rows, the page is the first of them, cut to the maximum, and there is a next page exactly if there
-- are more rows than `first`, whether the maximum has cut some or not; with a negative `first` the
-- resolver panics.
pub template_query-IsPage :
    {S : Type 0} (execute : TemplateQueryRequest → S → Run S TemplateQueryResult) (m : ℕ)
    (name : Bytes) (parameters : Fields) (fields : List Bytes) (first : ℤ) (offset : Option ℤ)
    (order_by : List TemplateOrderByParam) (need_count : Bool) (extension : Option Value) (s : S)
    (rows : List Fields) (r : TemplateQueryResult)
    → (execute
        (record {
          template_name = name;
          parameters = parameters;
          fields = fields;
          first = some first;
          offset = offset;
          order_by = order_by;
          need_count = need_count;
          skip_cache = skip_cache_requested extension;
        })
        s).answer
      ≡ ok r
    → r.data_rows ≡ fetched first rows
    → IsPage
        (suc m)
        rows
        first
        (template_query
          (some execute)
          (pos (suc m))
          name
          parameters
          fields
          (some first)
          offset
          order_by
          need_count
          extension
          s).0
unfolding template_query
template_query-IsPage execute m name parameters fields first offset order_by need_count extension s
      rows r ran h =
    rw ran (answered-IsPage m rows first offset r h)
