-- ===== src/Resolver/Templates.antt =====
-- internal/graphql/resolver: template.resolvers.go and template_helpers.go. The engine is the function
-- `execute` of Template/Engine, or none where templates are not enabled. Go's panic on a slice out of
-- range is an outcome.
mod Page
mod Tests
use mountain_king.Errors.{Result, ok, err, validation_error, err_validation_template_not_found}
use mountain_king.Prelude.{
  ℕ, zero, suc, Bool, true, false, not, ◌&&◌, Option, none, some, List, [], ◌∷◌, Bytes, length, ltb,
  if◌then◌else◌,
}
use mountain_king.Prelude.Int.{ℤ, pos, negsuc, ltb_ℤ}
use mountain_king.Resolver.Connection.{value_or_zero}
use mountain_king.Template.Engine.{TemplateQueryRequest, TemplateQueryResult, Run}
use mountain_king.Template.Keys.{TemplateOrderByParam}
use mountain_king.Template.Registry.{
  LoadResult, ReloadResult, ReloadState, Reloading, reload, take, page_of_templates,
}
use mountain_king.Value.{Fields, end, Value, boolean}

pub record TemplateQueryConnection : Type 0 where
  pub nodes : List Fields
  pub has_next_page : Bool
  pub has_previous_page : Bool
  pub total_count : ℤ

-- A connection with its warnings: whether the engine had one, and how many rows of how many were kept.
pub record Answer : Type 0 where
  pub connection : TemplateQueryConnection
  pub warned : Bool
  pub truncated : Option (ℕ × ℕ)

pub data Outcome : Type 0 where
  returned : Result Answer → Outcome
  panicked : Outcome

abbrev pub has_more : Option ℤ → ℕ → Bool
has_more none original_len = false
has_more (some first) original_len = ltb_ℤ first (pos original_len)

unfoldable pub build_template_query_connection :
    List Fields → ℕ → Option ℤ → Option ℤ → Option ℤ → TemplateQueryConnection
build_template_query_connection rows original_len total_count offset first = record {
  nodes = rows;
  has_next_page = has_more first original_len;
  has_previous_page = ltb_ℤ (pos 0) (value_or_zero offset);
  total_count = value_or_zero total_count;
}

-- `data[:*first]` if there are more rows; none for a panic.
unfoldable pub cut_first : Option ℤ → List Fields → Option (List Fields)
unfolding take
cut_first none rows = some rows
cut_first (some (pos n)) rows = if ltb n (length rows) then some (take n rows) else some rows
cut_first (some (negsuc n)) rows = none

unfoldable pub cap_rows : ℤ → List Fields → List Fields × Option (ℕ × ℕ)
unfolding take
cap_rows (negsuc m) rows = (rows, none)
cap_rows (pos m) rows =
    if ltb 0 m && ltb m (length rows) then (take m rows, some (m, length rows)) else (rows, none)

-- Step 4 and 5, on what is left of the rows.
unfoldable pub connected :
    ℤ → Option ℤ → Option ℤ → TemplateQueryResult → Option (List Fields) → Outcome
unfolding cap_rows build_template_query_connection
connected max_rows first offset result none = panicked
connected max_rows first offset result (some rows) =
    let (kept, truncated) = cap_rows max_rows rows in
    returned (
      ok (record {
        connection =
            build_template_query_connection kept (length result.data_rows) result.total_count offset
              first;
        warned = result.warned;
        truncated = truncated;
      }))

-- The `cache` extension of a request.
unfoldable pub skip_cache_requested : Option Value → Bool
skip_cache_requested (some (boolean b)) = not b
skip_cache_requested v = false

unfoldable pub answered : ℤ → Option ℤ → Option ℤ → Result TemplateQueryResult → Outcome
unfolding cut_first connected
answered max_rows first offset (err e) = returned (err e)
answered max_rows first offset (ok result) =
    connected max_rows first offset result (cut_first first result.data_rows)

-- `TemplateQuery`: `need_count` is whether the client asks for totalCount.
unfoldable pub template_query :
    {S : Type 0}
    → Option (TemplateQueryRequest → S → Run S TemplateQueryResult)
    → ℤ
    → Bytes
    → Fields
    → List Bytes
    → Option ℤ
    → Option ℤ
    → List TemplateOrderByParam
    → Bool
    → Option Value
    → S
    → Outcome × S
unfolding answered skip_cache_requested
template_query none max_rows name parameters fields first offset order_by need_count extension s =
    (returned (validation_error err_validation_template_not_found), s)
template_query (some execute) max_rows name parameters fields first offset order_by need_count
      extension s =
    let run =
      execute
        (record {
          template_name = name;
          parameters = parameters;
          fields = fields;
          first = first;
          offset = offset;
          order_by = order_by;
          need_count = need_count;
          skip_cache = skip_cache_requested extension;
        })
        s in
    (answered max_rows first offset run.answer, run.state)

-- `TemplateList`, on the templates in their order.
unfoldable pub template_list : {A : Type 0} → Option (List A) → Option ℤ → Option ℤ → List A
unfolding page_of_templates
template_list none first offset = []
template_list (some infos) first offset = page_of_templates first offset infos

-- `ReloadTemplates`: a reload by a mutation, or nothing.
unfoldable pub reload_templates :
    {A : Type 0} → Bool → Bool → ℕ → Option (LoadResult A) → ReloadState A → Reloading A
unfolding reload
reload_templates enabled has_cache now lr st =
    if not enabled
    then record {
      answer = some (record { success_count = 0; failures = [] });
      cleared = [];
      state = st;
    }
    else reload has_cache true now lr st
