-- ===== src/Scalar/AnyValue/Depth.antt =====
-- What is accepted, by the height of a value.
use Prim.Native.Nat.{max}
use mountain_king.Prelude.{ℕ, zero, suc, ◌+◌, ◌≤◌, ◌≡◌, ◌↔◌, Bool, true, false, ◌&&◌, none, arith}
use mountain_king.Scalar.AnyValue.{
  validate_any_value, validate_items, validate_fields, unmarshal_any_value, accepted, wrap,
  max_any_value_depth, float32,
}
use mountain_king.Value.{
  Value, null, boolean, string, float64, int, int64, json_number, object, slice, string_slice,
  other, Items, nil, cons, Fields, end, field,
}

-- The number of containers inside one another.
unfoldable mutual
  pub height : Value → ℕ
  height (object fs) = suc (height_fields fs)
  height (slice vs) = suc (height_items vs)
  height null = 0
  height (boolean b) = 0
  height (string s) = 0
  height (float64 x) = 0
  height (int n) = 0
  height (int64 n) = 0
  height (json_number s) = 0
  height (string_slice ss) = 0
  height (float32 x) = 0
  height other = 0

  pub height_items : Items → ℕ
  height_items nil = 0
  height_items (cons v vs) = max (height v) (height_items vs)

  pub height_fields : Fields → ℕ
  height_fields end = 0
  height_fields (field k v fs) = max (height v) (height_fields fs)

-- Every value in it is of a type of JSON.
unfoldable mutual
  pub is_json : Value → Bool
  is_json (object fs) = is_json_fields fs
  is_json (slice vs) = is_json_items vs
  is_json (string_slice ss) = false
  is_json (float32 x) = false
  is_json other = false
  is_json null = true
  is_json (boolean b) = true
  is_json (string s) = true
  is_json (float64 x) = true
  is_json (int n) = true
  is_json (int64 n) = true
  is_json (json_number s) = true

  pub is_json_items : Items → Bool
  is_json_items nil = true
  is_json_items (cons v vs) = is_json v && is_json_items vs

  pub is_json_fields : Fields → Bool
  is_json_fields end = true
  is_json_fields (field k v fs) = is_json v && is_json_fields fs

-- Nothing is nested too deep for a value of height `h` at `depth`; a leaf may stand at any depth.
abbrev Fits : ℕ → ℕ → Type 0
Fits zero depth = Unit
Fits (suc h) depth = suc h + depth ≤ max_any_value_depth

mutual
  unfolding validate_any_value height is_json wrap

  valid_iff :
      (v : Value) (d : ℕ)
      → (validate_any_value v d ≡ none) ↔ ((is_json v ≡ true) × Fits (height v) d)
  valid_iff null d = ground arith
  valid_iff (boolean b) d = ground arith
  valid_iff (string s) d = ground arith
  valid_iff (float64 x) d = ground arith
  valid_iff (int n) d = ground arith
  valid_iff (int64 n) d = ground arith
  valid_iff (json_number s) d = ground arith
  valid_iff (object fs) d = ground (arith, valid_fields_iff fs (suc d))
  valid_iff (slice vs) d = ground (arith, valid_items_iff vs 0 (suc d))
  valid_iff (string_slice ss) d = ground arith
  valid_iff (float32 x) d = ground arith
  valid_iff other d = ground arith

  valid_items_iff :
      (vs : Items) (i d : ℕ)
      → (validate_items vs i d ≡ none) ↔ ((is_json_items vs ≡ true) × Fits (height_items vs) d)
  valid_items_iff nil i d = ground arith
  valid_items_iff (cons v vs) i d = ground (arith, valid_iff v d, valid_items_iff vs (suc i) d)

  valid_fields_iff :
      (fs : Fields) (d : ℕ)
      → (validate_fields fs d ≡ none) ↔ ((is_json_fields fs ≡ true) × Fits (height_fields fs) d)
  valid_fields_iff end d = ground arith
  valid_fields_iff (field k v fs) d = ground (arith, valid_iff v d, valid_fields_iff fs d)

Fits-zero : (h : ℕ) → Fits h 0 ↔ (h ≤ max_any_value_depth)
Fits-zero zero = ground arith
Fits-zero (suc h) = ground arith

-- A value is accepted, and returned as it is, exactly when every value in it is of a type of JSON and
-- at most 64 containers stand inside one another.
pub unmarshal_any_value-accepted :
    (v : Value)
    → (unmarshal_any_value v ≡ accepted v) ↔ ((is_json v ≡ true) × (height v ≤ max_any_value_depth))
unfolding unmarshal_any_value
unmarshal_any_value-accepted v = ground (arith, valid_iff v 0, Fits-zero (height v))
