-- ===== src/Scalar/AnyValue.antt =====
-- internal/graphql/scalar/anyvalue.go: which values the scalar AnyValue takes.
pub mod Depth
mod Tests
use mountain_king.Prelude.{
  ℕ, zero, suc, ◌+◌, Bool, Option, none, some, List, Bytes, leb, if◌then◌else◌,
}
use mountain_king.Value.{
  Value, null, boolean, string, float64, int, int64, json_number, object, slice, string_slice,
  other, Items, nil, cons, Fields, end, field, float32,
}

abbrev pub max_any_value_depth : ℕ
max_any_value_depth = 64

pub data AnyValueError : Type 0 where
  depth_exceeded : AnyValueError
  unsupported_type : AnyValueError
  at_key : Bytes → AnyValueError → AnyValueError
  at_index : ℕ → AnyValueError → AnyValueError

-- `if err := …; err != nil { return wrap(err) }`, and then the rest of a loop.
wrap :
    (AnyValueError → AnyValueError)
    → Option AnyValueError
    → Option AnyValueError
    → Option AnyValueError
wrap at none rest = rest
wrap at (some e) rest = some (at e)

-- `none` is the error nil.
unfoldable mutual
  unfolding wrap

  pub validate_any_value : Value → ℕ → Option AnyValueError
  validate_any_value null depth = none
  validate_any_value (boolean b) depth = none
  validate_any_value (string s) depth = none
  validate_any_value (float64 x) depth = none
  validate_any_value (int n) depth = none
  validate_any_value (int64 n) depth = none
  validate_any_value (json_number s) depth = none
  validate_any_value (object fs) depth =
      let children = validate_fields fs (suc depth) in
      if leb max_any_value_depth depth then some depth_exceeded else children
  validate_any_value (slice vs) depth =
      let children = validate_items vs 0 (suc depth) in
      if leb max_any_value_depth depth then some depth_exceeded else children
  validate_any_value (string_slice ss) depth = some unsupported_type
  validate_any_value (float32 x) depth = some unsupported_type
  validate_any_value other depth = some unsupported_type

  pub validate_items : Items → ℕ → ℕ → Option AnyValueError
  validate_items nil i depth = none
  validate_items (cons v vs) i depth =
      wrap (at_index i) (validate_any_value v depth) (validate_items vs (suc i) depth)

  pub validate_fields : Fields → ℕ → Option AnyValueError
  validate_fields end depth = none
  validate_fields (field k v fs) depth =
      wrap (at_key k) (validate_any_value v depth) (validate_fields fs depth)

-- The value itself, or an error.
pub data Unmarshalled : Type 0 where
  accepted : Value → Unmarshalled
  refused : AnyValueError → Unmarshalled

unfoldable pub unmarshal_any_value : Value → Unmarshalled
unfolding validate_any_value
unmarshal_any_value v = elim (validate_any_value v 0) [ none ↦ accepted v | some e ↦ refused e ]
