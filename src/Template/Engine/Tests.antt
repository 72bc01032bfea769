-- ===== src/Template/Engine/Tests.antt =====
-- Template queries, from the request to the database.
use mountain_king.Cache.Layer.{Codec}
use mountain_king.Errors.{
  ok, err_validation_template_not_found, validation_error, err_validation_unsafe_sql,
}
use mountain_king.Prelude.{
  ◌≡◌, refl, true, false, none, some, [], ◌∷◌, Bytes, codes, bytes_eq, All, if◌then◌else◌,
}
use mountain_king.Prelude.Int.{pos}
use mountain_king.Middleware.AuthFailureLimiter.ClientIp.{trim_space}
use mountain_king.Template.Engine.{TemplateQueryRequest, TemplateEngine, Json, execute}
use mountain_king.Template.Engine.Executed.{IsPrepared, execute-IsPrepared}
use mountain_king.Template.Renderer.{rendered, RegisteredTemplate, checked_text}
use mountain_king.Template.Params.{Numbers, is_finite}
use mountain_king.Value.{Value, Fields, field, end, int64, string}

abbrev text_of : Value → Bytes
text_of (string s) = s
text_of v = []

numbers : Numbers
unfolding is_finite
numbers = record {
  to_int64 = λ bits. pos 0;
  of_int64 = λ z. 0;
  of_float32 = λ b. 0;
  parse_float = λ s. none;
  sprint = text_of;
  of_int64-finite = λ z. refl;
}

abbrev codec : Codec
codec = record { gob_encode = λ s. some s; gob_decode = λ s. some s; draw = λ ttl. ttl }

abbrev json : Json
json = record {
  marshal_rows = λ rows. none;
  unmarshal_rows = λ b. none;
  marshal_count = λ n. none;
  unmarshal_count = λ b. none;
}

abbrev sales : RegisteredTemplate
sales = record {
  name = codes "sales";
  template = λ params. rendered (codes " SELECT 1 -- one");
  param_schemas = [];
  cache_enabled = false;
  cache_ttl = none;
  count_enabled = true;
}

abbrev row : Fields
row = field (codes "total_count") (int64 (pos 7)) end

abbrev engine : TemplateEngine (Unit {0})
engine = record {
  registry = λ name. if bytes_eq name (codes "sales") then some sales else none;
  max_rendered_len = 100;
  max_result_rows = pos 50;
  datasource_name = codes "db";
  cache_layer = none;
  execute_raw = λ sql. some (row ∷ []);
  acquired = true;
}

abbrev request : TemplateQueryRequest
request = record {
  template_name = codes "sales";
  parameters = end;
  fields = [];
  first = none;
  offset = none;
  order_by = [];
  need_count = true;
  skip_cache = false;
}

counts :
    (execute codec json numbers (λ s. s) engine request tt).answer
    ≡ ok (record { data_rows = row ∷ []; total_count = some (pos 7); warned = false })
unfolding execute bytes_eq trim_space
counts = refl

sends :
    (execute codec json numbers (λ s. s) engine request tt).sent
    ≡ codes "SELECT * FROM (SELECT 1 ) AS __tq_wrapper__ LIMIT 51 OFFSET 0"
      ∷ codes "SELECT COUNT(*) AS total_count FROM (SELECT 1 ) AS __tq_cnt__"
      ∷ []
unfolding execute bytes_eq trim_space
sends = refl

unknown_template :
    (execute codec json numbers
      (λ s. s)
      engine
      (record request { template_name = codes "x" })
      tt).answer
    ≡ validation_error err_validation_template_not_found
unfolding execute bytes_eq
unknown_template = refl

too_long : checked_text 3 (codes "SELECT 1") ≡ validation_error err_validation_unsafe_sql
unfolding checked_text
too_long = refl

execute-IsPrepared_example :
    All
      (IsPrepared codec json numbers (λ s. s) engine request)
      (execute codec json numbers (λ s. s) engine request tt).sent
execute-IsPrepared_example = execute-IsPrepared codec json numbers (λ s. s) engine request tt
