-- ===== src/Template/Params/Tests.antt =====
-- Parameters of a concrete template.
use mountain_king.Errors.{
  ok, validation_error, err_validation_missing_parameter, err_validation_invalid_parameter_value,
}
use mountain_king.Prelude.{
  ◌≡◌, refl, true, false, none, some, List, [], ◌∷◌, Bytes, codes, bytes_eq, All,
}
use mountain_king.Prelude.Int.{pos, negsuc}
use mountain_king.Template.Params.{
  ParamSchema, Numbers, string_type, int_type, is_finite, is_integral, parse_int, validate_params,
}
use mountain_king.Template.Params.Typed.{IsValid, validate_params-IsValid}
use mountain_king.Value.{Value, Fields, field, end, string, int64, lookup_field}

abbrev text_of : Value → Bytes
text_of (string s) = s
text_of v = []

-- The numbers of these tests: no fraction and no exponent is read or written.
numbers : Numbers
unfolding is_finite
numbers = record {
  to_int64 = λ bits. pos 0;
  of_int64 = λ z. 0;
  of_float32 = λ b. 0;
  parse_float = λ s. none;
  sprint = text_of;
  of_int64-finite = λ z. refl;
}

abbrev schema : ParamSchema
schema = record {
  name = codes "limit";
  type_of = int_type;
  required = false;
  default = some (int64 (pos 5));
  enum = [];
  max_length = pos 0;
  max_items = pos 0;
  pattern = none;
}

abbrev city : ParamSchema
city = record schema {
  name = codes "city";
  type_of = string_type;
  required = true;
  default = none;
  enum = codes "rome" ∷ codes "oslo" ∷ [];
}

abbrev schemas : List ParamSchema
schemas = city ∷ schema ∷ []

abbrev given : Fields
given = field (codes "city") (string (codes "oslo")) end

abbrev validated : Fields
validated = field (codes "city") (string (codes "oslo")) (field (codes "limit") (int64 (pos 5)) end)

fills_default : validate_params numbers given schemas ≡ ok validated
unfolding numbers validate_params bytes_eq
fills_default = refl

refuses_missing :
    validate_params numbers end schemas ≡ validation_error err_validation_missing_parameter
unfolding numbers validate_params bytes_eq
refuses_missing = refl

refuses_value :
    validate_params numbers (field (codes "city") (string (codes "bonn")) end) schemas
    ≡ validation_error err_validation_invalid_parameter_value
unfolding numbers validate_params bytes_eq
refuses_value = refl

reads_minus : parse_int (codes "-12") ≡ some (negsuc 11)
unfolding parse_int
reads_minus = refl

-- 2.0 is integral, 1.5 is not.
two_integral : is_integral 4611686018427387904 ≡ true
unfolding is_integral
two_integral = refl

fraction_not_integral : is_integral 4609434218613702656 ≡ false
unfolding is_integral
fraction_not_integral = refl

validate_params-IsValid_example :
    All (λ t. IsValid numbers t (lookup_field t.name validated)) schemas
unfolding bytes_eq
validate_params-IsValid_example =
    validate_params-IsValid numbers given schemas validated ((refl, tt), (tt, tt)) (tt, (tt, tt))
      fills_default
