-- ===== src/Template/Engine/Executed.antt =====
-- What reaches the database.
use mountain_king.Errors.{
  Result, ok, err, Result-cases, >>=-eq-ok, ok-injective, err_datasource_timeout,
}
use mountain_king.Cache.Layer.{CacheLayer, Codec}
use mountain_king.Prelude.{
  ℕ, ◌≤◌, ◌∙◌, arith, ap, length, ◌≡◌, ◌⊎◌, refl, Bool, true, false, Option, none, some, List, [],
  ◌∷◌, ◌++◌, Bytes, All, if◌then◌else◌, Bool-cases, subst, inr, sym, inl,
}
use mountain_king.Template.Engine.{
  run_found, failing, direct, counted, datasource_name_for_cache, TemplateQueryRequest,
  TemplateEngine, Run, Json, should_cache, execute_with_cache, fetch, execute_count_query, prepare,
  execute, run_prepared, with_count,
}
use mountain_king.Template.Renderer.{
  RegisteredTemplate, Rendering, rendered, timed_out, failed, checked_text, rendered_text, render,
}
use mountain_king.Template.Sanitizer.{sanitize_sql}
use mountain_king.Middleware.AuthFailureLimiter.ClientIp.{trim_space}
use mountain_king.Template.Keys.{generate_cache_key, generate_count_cache_key}
use mountain_king.Prelude.Int.{pos}
use mountain_king.Template.Pagination.{wrap_with_count, wrap_with_pagination}
use mountain_king.Template.Params.{Numbers, validate_params}
use mountain_king.Value.{Fields}

All-append : {A : Type 0} (P : A → Type 0) (xs ys : List A) → All P xs → All P ys → All P (xs ++ ys)
All-append P [] ys a b = b
All-append P (x ∷ xs) ys (p, a) b = (p, All-append P xs ys a b)

module _ {S : Type 0} (codec : Codec) (json : Json) (numbers : Numbers) (hash : Bytes → Bytes)
    (te : TemplateEngine S) where
  -- Nothing but this query.
  abbrev Only : Bytes → List Bytes → Type 0
  Only sql sent = All (λ q. q ≡ sql) sent

  direct-Only :
      {A : Type 0} (sql : Bytes) (found : Option A) (s : S)
      → Only sql (direct codec json numbers hash te sql found s).sent
  direct-Only sql none s = (refl, tt)
  direct-Only sql (some a) s = (refl, tt)

  called-Only : (sql : Bytes) (b : Bool) → Only sql (if b then sql ∷ [] else [])
  called-Only sql true = (refl, tt)
  called-Only sql false = tt

  cached-Only :
      {A : Type 0} (marshal : A → Option Bytes) (unmarshal : Bytes → Option A) (empty : A)
      (cl : Option (CacheLayer S)) (datasource key sql : Bytes) (found : Option A) (s : S)
      → Only sql
          (execute_with_cache codec json numbers hash te marshal unmarshal empty cl datasource key
            sql found s).sent
  unfolding execute_with_cache
  cached-Only marshal unmarshal empty none datasource key sql found s = direct-Only sql found s
  cached-Only marshal unmarshal empty (some cl) datasource key sql found s = called-Only sql _

  fetch-Only :
      (req : TemplateQueryRequest) (tmpl : RegisteredTemplate) (params : Fields) (sql : Bytes)
      (s : S)
      → Only sql (fetch codec json numbers hash te req tmpl params sql s).sent
  unfolding fetch
  fetch-Only req tmpl params sql s =
      let name = datasource_name_for_cache codec json numbers hash te tmpl in
      let key =
        generate_cache_key numbers.sprint hash req.template_name params req.fields req.first
          req.offset req.order_by in
      elim (Bool-cases (should_cache tmpl req.skip_cache)) [
        | inl cached ↦ rw (cached) (
            cached-Only json.marshal_rows json.unmarshal_rows [] te.cache_layer name key sql
              (te.execute_raw sql) s)
        | inr plain ↦ rw (plain) (direct-Only sql (te.execute_raw sql) s)
      ]

  count-Only :
      (req : TemplateQueryRequest) (tmpl : RegisteredTemplate) (params : Fields) (sql : Bytes)
      (s : S)
      → Only sql (execute_count_query codec json numbers hash te req tmpl params sql s).sent
  unfolding execute_count_query
  count-Only req tmpl params sql s =
      let name = datasource_name_for_cache codec json numbers hash te tmpl in
      let key = generate_count_cache_key numbers.sprint hash req.template_name params in
      let found = counted codec json numbers hash te (te.execute_raw sql) in
      elim (Bool-cases (should_cache tmpl req.skip_cache)) [
        | inl cached ↦ rw (cached) (
            cached-Only json.marshal_count json.unmarshal_count (pos 0) te.cache_layer name key sql
              found s)
        | inr plain ↦ rw (plain) (direct-Only sql found s)
      ]

  -- The rendered text, wrapped in one of the two ways.
  abbrev IsWrap : Bytes → Bytes → Bytes → Type 0
  IsWrap text wrapped q = (q ≡ wrapped) ⊎ (q ≡ wrap_with_count text)

  Only-IsWrap :
      (text wrapped sql : Bytes) (sent : List Bytes)
      → IsWrap text wrapped sql
      → Only sql sent
      → All (IsWrap text wrapped) sent
  Only-IsWrap text wrapped sql [] w a = tt
  Only-IsWrap text wrapped sql (q ∷ qs) w (p, a) =
      (subst (IsWrap text wrapped) (sym p) w, Only-IsWrap text wrapped sql qs w a)

  with_count-IsWrap :
      (req : TemplateQueryRequest) (tmpl : RegisteredTemplate) (params : Fields)
      (text wrapped : Bytes) (run : Run S (List Fields))
      → All (IsWrap text wrapped) run.sent
      → All
          (IsWrap text wrapped)
          (with_count codec json numbers hash te req tmpl params text run).sent
  unfolding with_count
  with_count-IsWrap req tmpl params text wrapped run a =
      let sql = wrap_with_count text in
      let count = execute_count_query codec json numbers hash te req tmpl params sql run.state in
      let both = All-append (IsWrap text wrapped) run.sent count.sent a (
        Only-IsWrap text wrapped sql count.sent (inr refl)
          (count-Only req tmpl params sql run.state)) in
      elim (Result-cases run.answer) [
        | inl (e, refused) ↦ rw (refused) a
        | inr (rows, passed) ↦ elim (Bool-cases req.need_count) [
          | inr unneeded ↦ rw (passed, unneeded) a
          | inl needed ↦ elim (Bool-cases tmpl.count_enabled) [
            | inl enabled ↦ rw (passed, needed, enabled) both
            | inr disabled ↦ rw (passed, needed, disabled) a
          ]
        ]
      ]

  -- Where a query of the database comes from: a registered template, parameters that its schemas let
  -- through, a text that the template renders from them, no longer than allowed, what the sanitizer
  -- makes of this text, and one of the two wrappings of that.
  pub record IsPrepared (req : TemplateQueryRequest) (q : Bytes) : Type 0 where
    pub tmpl : RegisteredTemplate
    pub registered : te.registry req.template_name ≡ some tmpl
    pub params : Fields
    pub raw : Bytes
    pub text : Bytes
    pub validated : validate_params numbers req.parameters tmpl.param_schemas ≡ ok params
    pub rendered_as : tmpl.template params ≡ rendered raw
    pub small : length (trim_space raw) ≤ te.max_rendered_len
    pub sanitized : sanitize_sql (trim_space raw) ≡ ok text
    pub wrapping :
        (ok q
          ≡ wrap_with_pagination text req.fields req.order_by req.first req.offset
              te.max_result_rows)
        ⊎ (q ≡ wrap_with_count text)

  All-map :
      {A : Type 0} (P Q : A → Type 0) → ((x : A) → P x → Q x) → (xs : List A) → All P xs → All Q xs
  All-map P Q f [] a = tt
  All-map P Q f (x ∷ xs) (p, a) = (f x p, All-map P Q f xs a)

  if-All :
      {A : Type 0} (P : Bytes → Type 0) (b : Bool) (x y : Run S A)
      → All P x.sent
      → All P y.sent
      → All P (if b then x else y).sent
  if-All P true x y p q = p
  if-All P false x y p q = q

  checked_text-sanitized :
      (max : ℕ) (raw text : Bytes)
      → checked_text max raw ≡ ok text
      → (length raw ≤ max) × (sanitize_sql raw ≡ ok text)
  unfolding checked_text
  checked_text-sanitized max [] text h = cc
  checked_text-sanitized max (c ∷ raw) text h = ground arith

  -- What is behind a text that was rendered.
  rendered_text-sanitized :
      (max : ℕ) (outcome : Rendering) (text : Bytes)
      → rendered_text max outcome ≡ ok text
      → (raw : Bytes) × (outcome ≡ rendered raw) × (checked_text max (trim_space raw) ≡ ok text)
  unfolding rendered_text
  rendered_text-sanitized max timed_out text h = cc
  rendered_text-sanitized max failed text h = cc
  rendered_text-sanitized max (rendered raw) text h = (raw, refl, h)

  -- The chain of a request, taken apart.
  prepare-IsPrepared :
      (req : TemplateQueryRequest) (tmpl : RegisteredTemplate) (params : Fields)
      (text wrapped q : Bytes)
      → te.registry req.template_name ≡ some tmpl
      → prepare codec json numbers hash te req tmpl ≡ ok (params, (text, wrapped))
      → IsWrap text wrapped q
      → IsPrepared req q
  unfolding prepare render
  prepare-IsPrepared req tmpl params text wrapped q known h wrapping =
      let done : Fields × (Bytes × Bytes) = (params, (text, wrapped)) in
      let (params', valid, h₁) =
        >>=-eq-ok (validate_params numbers req.parameters tmpl.param_schemas) _ done h in
      let (text', shown, h₂) = >>=-eq-ok (render te.max_rendered_len tmpl params') _ done h₁ in
      let (wrapped', paged, e) =
        >>=-eq-ok
          (wrap_with_pagination text' req.fields req.order_by req.first req.offset
            te.max_result_rows)
          _ done h₂ in
      let same = ok-injective e in
      let same_params = ap (λ (t : Fields × (Bytes × Bytes)). t.0) same in
      let same_text = ap (λ (t : Fields × (Bytes × Bytes)). t.1.0) same in
      let same_wrapped = ap (λ (t : Fields × (Bytes × Bytes)). t.1.1) same in
      let (raw, outcome, checked) =
        rendered_text-sanitized te.max_rendered_len (tmpl.template params') text' shown in
      let (small, clean) =
        checked_text-sanitized te.max_rendered_len (trim_space raw) text' checked in
      record {
        tmpl = tmpl;
        registered = known;
        params = params';
        raw = raw;
        text = text';
        validated = valid;
        rendered_as = outcome;
        small = small;
        sanitized = clean;
        wrapping = elim wrapping [
          | inl page ↦ inl (ap ok (page ∙ sym same_wrapped) ∙ sym paged)
          | inr count ↦ inr (count ∙ ap wrap_with_count (sym same_text))
        ];
      }

  run_prepared-IsPrepared :
      (req : TemplateQueryRequest) (tmpl : RegisteredTemplate) (s : S)
      (done : Result (Fields × (Bytes × Bytes)))
      → te.registry req.template_name ≡ some tmpl
      → prepare codec json numbers hash te req tmpl ≡ done
      → All (IsPrepared req) (run_prepared codec json numbers hash te req tmpl done s).sent
  unfolding run_prepared
  run_prepared-IsPrepared req tmpl s (err e) r p = tt
  run_prepared-IsPrepared req tmpl s (ok (params, (text, wrapped))) r p =
      let rows = fetch codec json numbers hash te req tmpl params wrapped s in
      let run = with_count codec json numbers hash te req tmpl params text rows in
      if-All (IsPrepared req) te.acquired run (failing err_datasource_timeout 200 s)
        (All-map (IsWrap text wrapped) (IsPrepared req)
          (λ q w. prepare-IsPrepared req tmpl params text wrapped q r p w) run.sent
          (with_count-IsWrap req tmpl params text wrapped rows (
            Only-IsWrap text wrapped wrapped rows.sent (inl refl)
              (fetch-Only req tmpl params wrapped s))))
        tt

  run_found-IsPrepared :
      (req : TemplateQueryRequest) (found : Option RegisteredTemplate) (s : S)
      → te.registry req.template_name ≡ found
      → All (IsPrepared req) (run_found codec json numbers hash te req found s).sent
  unfolding run_found
  run_found-IsPrepared req none s e = tt
  run_found-IsPrepared req (some tmpl) s e =
      run_prepared-IsPrepared req tmpl s (prepare codec json numbers hash te req tmpl) e refl

  -- Every query that a template request hands to the database is the pagination or the count around
  -- what the sanitizer makes of a text that a registered template renders, within the length allowed,
  -- from parameters that its schemas let through; no other text is executed.
  pub execute-IsPrepared :
      (req : TemplateQueryRequest) (s : S)
      → All (IsPrepared req) (execute codec json numbers hash te req s).sent
  unfolding execute
  execute-IsPrepared req s = run_found-IsPrepared req (te.registry req.template_name) s refl
