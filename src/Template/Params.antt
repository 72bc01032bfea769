-- ===== src/Template/Params.antt =====
-- internal/template/validator.go: the parameters of a template. A float64 and a float32 are bit
-- patterns; a value of a further type is `other`, and refused. The conversions
-- between numbers of the machine, the matching of a pattern and the text of a value belong to the
-- language, to regexp and to fmt: they are parameters.
pub mod Typed
mod Tests
use mountain_king.Errors.{
  Result, ok, err, ◌>>=◌, ◌>>◌, validation_error, err_validation_missing_parameter,
  err_validation_invalid_parameter_type, err_validation_invalid_parameter_value,
}
use mountain_king.Prelude.{
  ℕ, ◌+◌, ◌-◌, ◌*◌, ◌/◌, ◌%◌, ◌^◌, ◌≡◌, Bool, true, false, not, ◌&&◌, ◌||◌, Option, none, some,
  List, [], ◌∷◌, Bytes, codes, bytes_eq, any, length, ltb, leb, ◌==◌, if◌then◌else◌, is_digit, all,
}
use mountain_king.Prelude.Int.{ℤ, pos, negsuc, ltb_ℤ}
use mountain_king.Template.FuncMap.{strings_of}
use mountain_king.Value.{
  Value, Fields, string, boolean, float64, int, int64, slice, string_slice, lookup_field, set_field,
  float32,
}

-- The types of a schema; `unsupported` is any further text.
pub data ParamType : Type 0 where
  string_type int_type float_type boolean_type strings_type unsupported : ParamType

-- `Default` is nil where there is none, and so is `Pattern`.
pub record ParamSchema : Type 0 where
  pub name : Bytes
  pub type_of : ParamType
  pub required : Bool
  pub default : Option Value
  pub enum : List Bytes
  pub max_length : ℤ
  pub max_items : ℤ
  pub pattern : Option (Bytes → Bool)

abbrev exponent : ℕ → ℕ
exponent bits = bits / 2 ^ 52 % 2 ^ 11

-- Neither NaN nor an infinity.
unfoldable pub is_finite : ℕ → Bool
is_finite bits = ltb (exponent bits) 2047

-- `v == math.Trunc(v)` of a finite number: one below 1 is zero, and the bits behind the point are.
unfoldable pub is_integral : ℕ → Bool
is_integral bits =
    let e = exponent bits in
    if ltb e 1023 then bits % 2 ^ 63 == 0 else (leb 1075 e || bits % 2 ^ 52 % 2 ^ (1075 - e) == 0)

pub record Numbers : Type 0 where
  pub to_int64 : ℕ → ℤ
  pub of_int64 : ℤ → ℕ
  pub of_float32 : ℕ → ℕ
  pub parse_float : Bytes → Option ℕ
  pub sprint : Value → Bytes
  -- A float64 has no infinity for an integer of 64 bits.
  pub of_int64-finite : (z : ℤ) → is_finite (of_int64 z) ≡ true

unfoldable pub digits_of : ℕ → Bytes → ℕ
digits_of acc [] = acc
digits_of acc (c ∷ s) = digits_of (acc * 10 + (c - b'0')) s

unfoldable pub unsigned : Bool → Bytes → Option ℤ
unfolding digits_of
unsigned negative [] = none
unsigned negative (c ∷ s) =
    let n = digits_of 0 (c ∷ s) in
    if not (all is_digit (c ∷ s))
    then none
    else if negative
    then (if leb n (2 ^ 63) then some (if n == 0 then pos 0 else negsuc (n - 1)) else none)
    else if ltb n (2 ^ 63)
    then some (pos n)
    else none

-- `strconv.ParseInt(v, 10, 64)`.
unfoldable pub parse_int : Bytes → Option ℤ
unfolding unsigned
parse_int [] = none
parse_int (c ∷ s) =
    if c == b'-'
    then unsigned true s
    else if c == b'+'
    then unsigned false s
    else unsigned false (c ∷ s)

abbrev type_error : {A : Type 0} → Result A
type_error = validation_error err_validation_invalid_parameter_type

abbrev value_error : {A : Type 0} → Result A
value_error = validation_error err_validation_invalid_parameter_value

module _ (numbers : Numbers) where
  unfoldable pub convert_int : Value → Result Value
  unfolding is_finite is_integral parse_int
  convert_int (int z) = ok (int64 z)
  convert_int (int64 z) = ok (int64 z)
  convert_int (float64 bits) =
      if is_finite bits && is_integral bits then ok (int64 (numbers.to_int64 bits)) else type_error
  convert_int (string s) = elim (parse_int s) [ some z ↦ ok (int64 z) | none ↦ type_error ]
  convert_int v = type_error

  unfoldable pub finite : ℕ → Result Value
  unfolding is_finite
  finite bits = if is_finite bits then ok (float64 bits) else type_error

  unfoldable pub convert_float : Value → Result Value
  unfolding finite
  convert_float (float64 bits) = finite bits
  convert_float (float32 bits) = finite (numbers.of_float32 bits)
  convert_float (int z) = ok (float64 (numbers.of_int64 z))
  convert_float (int64 z) = ok (float64 (numbers.of_int64 z))
  convert_float (string s) = elim (numbers.parse_float s) [
    | some bits ↦ finite bits
    | none ↦ type_error
  ]
  convert_float v = type_error

  unfoldable pub convert_string_slice : Value → Result Value
  unfolding strings_of
  convert_string_slice (string_slice ss) = ok (string_slice ss)
  convert_string_slice (slice vs) = elim (strings_of vs) [
    | some ss ↦ ok (string_slice ss)
    | none ↦ type_error
  ]
  convert_string_slice v = type_error

  unfoldable pub convert_string : Value → Result Value
  convert_string (string s) = ok (string s)
  convert_string v = type_error

  unfoldable pub convert_boolean : Value → Result Value
  convert_boolean (boolean b) = ok (boolean b)
  convert_boolean v = type_error

  unfoldable pub convert_param_type : Value → ParamType → Result Value
  unfolding convert_int convert_float convert_string_slice convert_string convert_boolean
  convert_param_type v string_type = convert_string v
  convert_param_type v int_type = convert_int v
  convert_param_type v float_type = convert_float v
  convert_param_type v boolean_type = convert_boolean v
  convert_param_type v strings_type = convert_string_slice v
  convert_param_type v unsupported = type_error

  unfoldable pub check_enum : ParamSchema → Value → Result (Unit {0})
  check_enum schema v =
      if ltb 0 (length schema.enum) && not (any (λ e. bytes_eq (numbers.sprint v) e) schema.enum)
      then value_error
      else ok tt

  unfoldable pub exceeds : ℤ → ℕ → Bool
  exceeds bound n = ltb_ℤ (pos 0) bound && ltb_ℤ bound (pos n)

  unfoldable pub check_length : ParamSchema → ParamType → Value → Result (Unit {0})
  unfolding exceeds
  check_length schema string_type (string s) =
      if exceeds schema.max_length (length s) then value_error else ok tt
  check_length schema strings_type (string_slice ss) =
      if exceeds schema.max_items (length ss) then value_error else ok tt
  check_length schema t v = ok tt

  unfoldable pub check_pattern : Option (Bytes → Bool) → ParamType → Value → Result (Unit {0})
  check_pattern (some matches) string_type (string s) =
      if not (matches s) then value_error else ok tt
  check_pattern pattern t v = ok tt

  unfoldable pub validate_constraints : ParamSchema → Value → Result (Unit {0})
  unfolding check_enum check_length check_pattern
  validate_constraints schema v = do
    check_enum schema v
    check_length schema schema.type_of v
    check_pattern schema.pattern schema.type_of v

  -- A parameter that is not given.
  unfoldable pub fill_missing : ParamSchema → Fields → Result Fields
  unfolding set_field
  fill_missing schema result =
      if schema.required
      then validation_error err_validation_missing_parameter
      else elim schema.default [ none ↦ ok result | some v ↦ ok (set_field schema.name v result) ]

  -- One round of the loop over the schemas.
  unfoldable pub validate_one : ParamSchema → Option Value → Fields → Result Fields
  unfolding fill_missing convert_param_type validate_constraints set_field
  validate_one schema none result = fill_missing schema result
  validate_one schema (some v) result = do
    converted ← convert_param_type v schema.type_of
    validate_constraints schema converted
    ok (set_field schema.name converted result)

  unfoldable pub validate_params : Fields → List ParamSchema → Result Fields
  unfolding validate_one lookup_field
  validate_params params [] = ok params
  validate_params params (schema ∷ schemas) = do
    result ← validate_one schema (lookup_field schema.name params) params
    validate_params result schemas
