-- ===== src/Template/Params/Typed.antt =====
-- What the parameters of a template are after the validation.
use mountain_king.Errors.{ApiError, err, Result, ok, >>=-eq-ok, ok-injective}
use mountain_king.Prelude.{
  ◌&&◌, ◌≡◌, ◌⊎◌, inl, inr, refl, sym, subst, ap, ◌∙◌, Bool, true, false, Option, none, some, List,
  [], ◌∷◌, Bytes, arith, All, bytes_eq, bytes_eq_iff, Option-cases, Bool-cases, if◌then◌else◌,
}
use mountain_king.Template.Params.{
  is_integral, ParamType, string_type, int_type, float_type, boolean_type, strings_type,
  unsupported, ParamSchema, Numbers, is_finite, convert_int, finite, convert_float,
  convert_string_slice, convert_string, convert_boolean, convert_param_type, validate_constraints,
  fill_missing, validate_one, validate_params, parse_int, float32,
}
use mountain_king.Template.FuncMap.{strings_of}
use mountain_king.Value.{
  Value, Fields, string, boolean, float64, int, int64, slice, string_slice, lookup_field, set_field,
  lookup_field-set_field,
}

-- The value has the Go type that the templates expect of the type.
abbrev pub HasType : ParamType → Value → Type 0
HasType string_type (string s) = Unit
HasType int_type (int64 z) = Unit
HasType float_type (float64 bits) = is_finite bits ≡ true
HasType boolean_type (boolean b) = Unit
HasType strings_type (string_slice ss) = Unit
HasType t v = ⊥

-- A default, if there is one, has the type of its schema.
abbrev pub HasDefault : ParamType → Option Value → Type 0
HasDefault t none = Unit
HasDefault t (some v) = HasType t v

-- No two schemas have one name.
abbrev pub AreDistinct : List ParamSchema → Type 0
AreDistinct [] = Unit
AreDistinct (s ∷ ss) = All (λ t. bytes_eq t.name s.name ≡ false) ss × AreDistinct ss

module _ (numbers : Numbers) where
  -- What stands under the name of a schema: nothing, if it is optional without a default; else a value
  -- of its type that meets its constraints or is its default.
  abbrev pub IsValid : ParamSchema → Option Value → Type 0
  IsValid schema none = (schema.required ≡ false) × (schema.default ≡ none)
  IsValid schema (some v) =
      HasType schema.type_of v
      × ((validate_constraints numbers schema v ≡ ok tt) ⊎ (schema.default ≡ some v))

  -- What a result holds, if it is one.
  abbrev Ensures : (Value → Type 0) → Result Value → Type 0
  Ensures P x = (v : Value) → x ≡ ok v → P v

  ok-Ensures : (P : Value → Type 0) (v : Value) → P v → Ensures P (ok v)
  ok-Ensures P v p w h = subst P (ok-injective h) p

  if-Ensures :
      (P : Value → Type 0) (b : Bool) (x : Result Value) (e : ApiError)
      → (b ≡ true → Ensures P x)
      → Ensures P (if b then x else err e)
  if-Ensures P true x e h = h refl
  if-Ensures P false x e h = λ v f. cc

  option-Ensures :
      {A : Type 0} (P : Value → Type 0) (o : Option A) (f : A → Result Value) (e : ApiError)
      → ((a : A) → Ensures P (f a))
      → Ensures P (elim o [ some a ↦ f a | none ↦ err e ])
  option-Ensures P (some a) f e h = h a
  option-Ensures P none f e h = λ v g. cc

  finite-HasType : (bits : _) → Ensures (HasType float_type) (finite numbers bits)
  unfolding finite
  finite-HasType bits =
      if-Ensures (HasType float_type) (is_finite bits) _ _
        (λ h. ok-Ensures (HasType float_type) (float64 bits) h)

  convert_int-HasType : (v : Value) → Ensures (HasType int_type) (convert_int numbers v)
  unfolding convert_int
  convert_int-HasType (int z) = ok-Ensures (HasType int_type) (int64 z) tt
  convert_int-HasType (int64 z) = ok-Ensures (HasType int_type) (int64 z) tt
  convert_int-HasType (float64 bits) =
      if-Ensures (HasType int_type) (is_finite bits && is_integral bits)
        (ok (int64 (numbers.to_int64 bits))) _
        (λ _. ok-Ensures (HasType int_type) (int64 (numbers.to_int64 bits)) tt)
  convert_int-HasType (string s) =
      option-Ensures (HasType int_type) (parse_int s) _ _
        (λ z. ok-Ensures (HasType int_type) (int64 z) tt)
  convert_int-HasType v = λ w h. cc

  convert_float-HasType : (v : Value) → Ensures (HasType float_type) (convert_float numbers v)
  unfolding convert_float
  convert_float-HasType (int z) =
      ok-Ensures (HasType float_type) (float64 (numbers.of_int64 z)) (numbers.of_int64-finite z)
  convert_float-HasType (int64 z) =
      ok-Ensures (HasType float_type) (float64 (numbers.of_int64 z)) (numbers.of_int64-finite z)
  convert_float-HasType (float64 bits) = finite-HasType bits
  convert_float-HasType (float32 bits) = finite-HasType (numbers.of_float32 bits)
  convert_float-HasType (string s) =
      option-Ensures (HasType float_type) (numbers.parse_float s) _ _ (λ bits. finite-HasType bits)
  convert_float-HasType v = λ w h. cc

  convert_string_slice-HasType :
      (v : Value) → Ensures (HasType strings_type) (convert_string_slice numbers v)
  unfolding convert_string_slice
  convert_string_slice-HasType (string_slice ss) =
      ok-Ensures (HasType strings_type) (string_slice ss) tt
  convert_string_slice-HasType (slice vs) =
      option-Ensures (HasType strings_type) (strings_of vs) _ _
        (λ ss. ok-Ensures (HasType strings_type) (string_slice ss) tt)
  convert_string_slice-HasType v = λ w h. cc

  convert_string-HasType : (v : Value) → Ensures (HasType string_type) (convert_string numbers v)
  unfolding convert_string
  convert_string-HasType (string s) = ok-Ensures (HasType string_type) (string s) tt
  convert_string-HasType v = λ w h. cc

  convert_boolean-HasType : (v : Value) → Ensures (HasType boolean_type) (convert_boolean numbers v)
  unfolding convert_boolean
  convert_boolean-HasType (boolean b) = ok-Ensures (HasType boolean_type) (boolean b) tt
  convert_boolean-HasType v = λ w h. cc

  convert-HasType :
      (v : Value) (t : ParamType) → Ensures (HasType t) (convert_param_type numbers v t)
  unfolding convert_param_type
  convert-HasType v string_type = convert_string-HasType v
  convert-HasType v int_type = convert_int-HasType v
  convert-HasType v float_type = convert_float-HasType v
  convert-HasType v boolean_type = convert_boolean-HasType v
  convert-HasType v strings_type = convert_string_slice-HasType v
  convert-HasType v unsupported = λ w h. cc

  -- Another name is left alone.
  abbrev Keeps : Bytes → Fields → Fields → Type 0
  Keeps name params r =
      (q : Bytes) → bytes_eq name q ≡ false → lookup_field q r ≡ lookup_field q params

  -- After the round of a schema its own name is valid, and the others are as they were.
  abbrev IsRound : ParamSchema → Fields → Fields → Type 0
  IsRound schema params r = IsValid schema (lookup_field schema.name r) × Keeps schema.name params r

  lookup_field-set_same :
      (key : Bytes) (v : Value) (fs : Fields) → lookup_field key (set_field key v fs) ≡ some v
  lookup_field-set_same key v fs =
      ground (arith, lookup_field-set_field key key v fs, bytes_eq_iff key key)

  set-IsRound :
      (schema : ParamSchema) (v : Value) (params : Fields)
      → IsValid schema (some v)
      → IsRound schema params (set_field schema.name v params)
  set-IsRound schema v params p = (
    subst (IsValid schema) (sym (lookup_field-set_same schema.name v params)) p,
    λ q other. lookup_field-set_field q schema.name v params ∙ rw (other) refl,
  )

  validate_one-IsRound :
      (schema : ParamSchema) (given : Option Value) (params r : Fields)
      → HasDefault schema.type_of schema.default
      → lookup_field schema.name params ≡ given
      → validate_one numbers schema given params ≡ ok r
      → IsRound schema params r
  unfolding validate_one fill_missing
  validate_one-IsRound schema none params r d g h = elim (Bool-cases schema.required) [
    | inl must ↦ cc
    | inr optional ↦ elim (Option-cases schema.default) [
      | inl nothing ↦
          let same : params ≡ r = ok-injective (ground arith) in
          subst (IsRound schema params) same
            (subst (IsValid schema) (sym g) (optional, nothing), λ q o. refl)
      | inr (v, given) ↦
          let filled : set_field schema.name v params ≡ r = ok-injective (ground arith) in
          subst (IsRound schema params) filled
            (set-IsRound schema v params (subst (HasDefault schema.type_of) given d, inr given))
    ]
  ]
  validate_one-IsRound schema (some v) params r d g h =
      let (w, converts, h') = >>=-eq-ok (convert_param_type numbers v schema.type_of) _ r h in
      let (_, meets, e) = >>=-eq-ok (validate_constraints numbers schema w) _ r h' in
      subst (IsRound schema params) (ok-injective e)
        (set-IsRound schema w params (convert-HasType v schema.type_of w converts, inl meets))

  -- A name that no schema has is left alone.
  validate_params-Keeps :
      (params : Fields) (schemas : List ParamSchema) (r : Fields) (name : Bytes)
      → All (λ t. HasDefault t.type_of t.default) schemas
      → All (λ t. bytes_eq t.name name ≡ false) schemas
      → validate_params numbers params schemas ≡ ok r
      → lookup_field name r ≡ lookup_field name params
  unfolding validate_params
  validate_params-Keeps params [] r name d other h = ap (lookup_field name) (sym (ok-injective h))
  validate_params-Keeps params (schema ∷ schemas) r name (p, d) (o, other) h =
      let (first, round, rest) =
        >>=-eq-ok (validate_one numbers schema (lookup_field schema.name params) params) _ r h in
      let (_, keeps) =
        validate_one-IsRound schema (lookup_field schema.name params) params first p refl round in
      validate_params-Keeps first schemas r name d other rest ∙ keeps name o

  -- If the parameters pass, the schemas have names of their own and the defaults have the types of
  -- their schemas, then each schema has its value: none, if it is optional without a default; else one
  -- of the Go type of the schema, which meets the constraints or is the default.
  pub validate_params-IsValid :
      (params : Fields) (schemas : List ParamSchema) (r : Fields)
      → AreDistinct schemas
      → All (λ t. HasDefault t.type_of t.default) schemas
      → validate_params numbers params schemas ≡ ok r
      → All (λ t. IsValid t (lookup_field t.name r)) schemas
  unfolding validate_params
  validate_params-IsValid params [] r distinct d h = tt
  validate_params-IsValid params (schema ∷ schemas) r (other, distinct) (p, d) h =
      let (first, round, rest) =
        >>=-eq-ok (validate_one numbers schema (lookup_field schema.name params) params) _ r h in
      let (valid, _) =
        validate_one-IsRound schema (lookup_field schema.name params) params first p refl round in
      (
        subst (IsValid schema)
            (sym (validate_params-Keeps first schemas r schema.name d other rest)) valid,
        validate_params-IsValid first schemas r distinct d rest,
      )
