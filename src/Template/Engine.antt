-- ===== src/Template/Engine.antt =====
-- internal/template/engine.go: a template query from the request to the database. What
-- text/template makes of the parameters, what the database answers, and whether a place in the
-- semaphore was free before the deadline are inputs; metrics, traces and logs are left out.
pub mod Executed
mod Tests
use mountain_king.Cache.Layer.{CacheLayer, Codec, Loaded, load_error, loaded, Outcome, get_or_load}
use mountain_king.Errors.{
  Code, Result, ok, err, ◌>>=◌, validation_error, datasource_error,
  err_validation_template_not_found, err_validation_unsafe_sql, err_internal_template_render_error,
  err_datasource_timeout, err_datasource_query_error,
}
use mountain_king.Prelude.{
  ℕ, Bool, true, false, not, ◌&&◌, ◌||◌, Option, none, some, List, [], ◌∷◌, ◌++◌, Bytes, codes, ltb,
  if◌then◌else◌, length, bytes_eq,
}
use mountain_king.Prelude.Int.{ℤ, pos, negsuc}
use mountain_king.Template.Keys.{TemplateOrderByParam, generate_cache_key, generate_count_cache_key}
use mountain_king.Template.Pagination.{wrap_with_pagination, wrap_with_count}
use mountain_king.Template.Params.{ParamSchema, Numbers, validate_params}
use mountain_king.Template.Counts.{extract_count}
use mountain_king.Template.Renderer.{RegisteredTemplate, render}
use mountain_king.Value.{Fields}

pub record TemplateQueryRequest : Type 0 where
  pub template_name : Bytes
  pub parameters : Fields
  pub fields : List Bytes
  pub first : Option ℤ
  pub offset : Option ℤ
  pub order_by : List TemplateOrderByParam
  pub need_count : Bool
  pub skip_cache : Bool

unfoldable pub should_cache : RegisteredTemplate → Bool → Bool
should_cache tmpl skip_cache = tmpl.cache_enabled && not skip_cache

-- The package encoding/json.
pub record Json : Type 0 where
  pub marshal_rows : List Fields → Option Bytes
  pub unmarshal_rows : Bytes → Option (List Fields)
  pub marshal_count : ℤ → Option Bytes
  pub unmarshal_count : Bytes → Option ℤ

-- What is outside of the engine: the cache layer over states `S`, the database (`ExecuteRaw`, its error
-- being one of the data source), and the semaphore.
pub record TemplateEngine (S : Type 0) : Type 0 where
  pub registry : Bytes → Option RegisteredTemplate
  pub max_rendered_len : ℕ
  pub max_result_rows : ℤ
  pub datasource_name : Bytes
  pub cache_layer : Option (CacheLayer S)
  pub execute_raw : Bytes → Option (List Fields)
  pub acquired : Bool

-- An answer, the SQL that was handed to the database, and the state of the cache.
pub record Run (S : Type 0) (A : Type 0) : Type 0 where
  pub answer : Result A
  pub sent : List Bytes
  pub state : S

pub record TemplateQueryResult : Type 0 where
  pub data_rows : List Fields
  pub total_count : Option ℤ
  pub warned : Bool

abbrev query_error : {A : Type 0} → Result A
query_error = datasource_error err_datasource_query_error

abbrev pub failing : {S A : Type 0} → Code → ℕ → S → Run S A
failing code status s = record {
  answer = err (record { code = code; status_code = status });
  sent = [];
  state = s;
}

module _ {S : Type 0} (codec : Codec) (json : Json) (numbers : Numbers) (hash : Bytes → Bytes)
    (te : TemplateEngine S) where
  unfoldable pub datasource_name_for_cache : RegisteredTemplate → Bytes
  datasource_name_for_cache tmpl = elim tmpl.cache_ttl [
    | some ttl ↦ codes "template:" ++ tmpl.name
    | none ↦ te.datasource_name
  ]

  -- What a loader over a query yields.
  abbrev loader_of : {A : Type 0} → (A → Option Bytes) → Option A → Loaded
  loader_of marshal none = load_error
  loader_of marshal (some a) = elim (marshal a) [ none ↦ load_error | some b ↦ loaded b ]

  -- What a caller makes of the bytes that it gets; `empty` stands for none.
  abbrev decoded_of : {A : Type 0} → (Bytes → Option A) → A → Loaded → Result A
  decoded_of unmarshal empty load_error = query_error
  decoded_of unmarshal empty (loaded []) = ok empty
  decoded_of unmarshal empty (loaded (c ∷ b)) = elim (unmarshal (c ∷ b)) [
    | none ↦ query_error
    | some a ↦ ok a
  ]

  abbrev pub direct : {A : Type 0} → Bytes → Option A → S → Run S A
  direct sql none s = record { answer = query_error; sent = sql ∷ []; state = s }
  direct sql (some a) s = record { answer = ok a; sent = sql ∷ []; state = s }

  -- `executeWithCache` and `executeCount`, which differ in what they marshal.
  unfoldable pub execute_with_cache :
      {A : Type 0}
      → (A → Option Bytes)
      → (Bytes → Option A)
      → A
      → Option (CacheLayer S)
      → Bytes
      → Bytes
      → Bytes
      → Option A
      → S
      → Run S A
  unfolding get_or_load
  execute_with_cache marshal unmarshal empty none datasource key sql found s = direct sql found s
  execute_with_cache marshal unmarshal empty (some cl) datasource key sql found s =
      let o = get_or_load codec cl key datasource (loader_of marshal found) s in
      record {
        answer = decoded_of unmarshal empty o.answer;
        sent = if o.called then sql ∷ [] else [];
        state = o.state;
      }

  -- Step 9.
  unfoldable pub fetch :
      TemplateQueryRequest → RegisteredTemplate → Fields → Bytes → S → Run S (List Fields)
  unfolding execute_with_cache should_cache generate_cache_key datasource_name_for_cache
  fetch req tmpl params sql s =
      let key =
        generate_cache_key numbers.sprint hash req.template_name params req.fields req.first
          req.offset req.order_by in
      if should_cache tmpl req.skip_cache
      then execute_with_cache json.marshal_rows json.unmarshal_rows [] te.cache_layer
          (datasource_name_for_cache tmpl) key sql (te.execute_raw sql) s
      else direct sql (te.execute_raw sql) s

  unfoldable pub counted : Option (List Fields) → Option ℤ
  unfolding extract_count
  counted none = none
  counted (some rows) = some (extract_count numbers rows)

  unfoldable pub execute_count_query :
      TemplateQueryRequest → RegisteredTemplate → Fields → Bytes → S → Run S ℤ
  unfolding execute_with_cache should_cache generate_count_cache_key datasource_name_for_cache
      counted
  execute_count_query req tmpl params sql s =
      let key = generate_count_cache_key numbers.sprint hash req.template_name params in
      let found = counted (te.execute_raw sql) in
      if should_cache tmpl req.skip_cache
      then execute_with_cache json.marshal_count json.unmarshal_count (pos 0) te.cache_layer
          (datasource_name_for_cache tmpl) key sql found s
      else direct sql found s

  abbrev finished : List Bytes → List Fields → Run S ℤ → Run S TemplateQueryResult
  finished sent rows run = record {
    answer = elim run.answer [
      | err e ↦ err e
      | ok n ↦ ok (record { data_rows = rows; total_count = some n; warned = false })
    ];
    sent = sent ++ run.sent;
    state = run.state;
  }

  -- Step 10, behind the rows.
  unfoldable pub with_count :
      TemplateQueryRequest
      → RegisteredTemplate
      → Fields
      → Bytes
      → Run S (List Fields)
      → Run S TemplateQueryResult
  unfolding execute_count_query wrap_with_count
  with_count req tmpl params text run =
      let count = execute_count_query req tmpl params (wrap_with_count text) run.state in
      elim run.answer [
        | err e ↦ record { answer = err e; sent = run.sent; state = run.state }
        | ok rows ↦
            if not req.need_count
            then record {
              answer = ok (record { data_rows = rows; total_count = none; warned = false });
              sent = run.sent;
              state = run.state;
            }
            else if tmpl.count_enabled
            then finished run.sent rows count
            else record {
              answer =
                  ok (record { data_rows = rows; total_count = some (negsuc 0); warned = true });
              sent = run.sent;
              state = run.state;
            }
      ]

  -- Steps 2 to 7: the parameters, the rendered text and the wrapped query.
  unfoldable pub prepare :
      TemplateQueryRequest → RegisteredTemplate → Result (Fields × (Bytes × Bytes))
  unfolding validate_params render wrap_with_pagination
  prepare req tmpl = do
    params ← validate_params numbers req.parameters tmpl.param_schemas
    text ← render te.max_rendered_len tmpl params
    wrapped ←
        wrap_with_pagination text req.fields req.order_by req.first req.offset te.max_result_rows
    ok (params, (text, wrapped))

  -- Steps 8 to 11.
  unfoldable pub run_prepared :
      TemplateQueryRequest
      → RegisteredTemplate
      → Result (Fields × (Bytes × Bytes))
      → S
      → Run S TemplateQueryResult
  unfolding fetch with_count
  run_prepared req tmpl (err e) s = record { answer = err e; sent = []; state = s }
  run_prepared req tmpl (ok (params, (text, wrapped))) s =
      let run = with_count req tmpl params text (fetch req tmpl params wrapped s) in
      if te.acquired then run else failing err_datasource_timeout 200 s

  unfoldable pub run_found :
      TemplateQueryRequest → Option RegisteredTemplate → S → Run S TemplateQueryResult
  unfolding prepare run_prepared
  run_found req none s = failing err_validation_template_not_found 400 s
  run_found req (some tmpl) s = run_prepared req tmpl (prepare req tmpl) s

  unfoldable pub execute : TemplateQueryRequest → S → Run S TemplateQueryResult
  unfolding run_found
  execute req s = run_found req (te.registry req.template_name) s

  -- The entry that the deferred function leaves in the audit log: whether there was an error.
  unfoldable pub audited : Run S TemplateQueryResult → Bool
  audited run = elim run.answer [ ok r ↦ true | err e ↦ false ]
