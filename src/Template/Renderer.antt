-- ===== src/Template/Renderer.antt =====
-- internal/template/renderer.go, and what registry.go keeps of a template.
use mountain_king.Errors.{
  Result, err, validation_error, err_validation_unsafe_sql, err_internal_template_render_error,
}
use mountain_king.Middleware.AuthFailureLimiter.ClientIp.{trim_space}
use mountain_king.Prelude.{ℕ, Bool, Option, List, [], ◌∷◌, Bytes, ltb, if◌then◌else◌, length}
use mountain_king.Prelude.Int.{ℤ}
use mountain_king.Template.Params.{ParamSchema}
use mountain_king.Template.Sanitizer.{sanitize_sql}
use mountain_king.Value.{Fields}

-- What the execution of a text/template comes to.
pub data Rendering : Type 0 where
  timed_out failed : Rendering
  rendered : (text : Bytes) → Rendering

pub record RegisteredTemplate : Type 0 where
  pub name : Bytes
  pub template : Fields → Rendering
  pub param_schemas : List ParamSchema
  pub cache_enabled : Bool
  pub cache_ttl : Option ℤ
  pub count_enabled : Bool

abbrev pub render_error : {A : Type 0} → Result A
render_error = err (record { code = err_internal_template_render_error; status_code = 500 })

-- The checks of a text that was rendered.
unfoldable pub checked_text : ℕ → Bytes → Result Bytes
unfolding sanitize_sql
checked_text max_len [] = render_error
checked_text max_len (c ∷ s) =
    if ltb max_len (length (c ∷ s))
    then validation_error err_validation_unsafe_sql
    else sanitize_sql (c ∷ s)

-- What becomes of the outcome of the execution.
unfoldable pub rendered_text : ℕ → Rendering → Result Bytes
unfolding checked_text trim_space
rendered_text max_len timed_out = render_error
rendered_text max_len failed = render_error
rendered_text max_len (rendered text) = checked_text max_len (trim_space text)

unfoldable pub render : ℕ → RegisteredTemplate → Fields → Result Bytes
unfolding rendered_text
render max_len tmpl params = rendered_text max_len (tmpl.template params)
