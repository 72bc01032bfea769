-- ===== src/Value.antt =====
-- The values of Go's `any` that reach the modelled code: those of a JSON text, `[]string` and float32. A
-- float64 or a float32 stands as its bit pattern; `other` is a value of any further type.
use mountain_king.Prelude.{
  ℕ, Bool, Option, none, some, List, [], ◌∷◌, Bytes, bytes_eq, if◌then◌else◌, ◌≡◌, arith,
  bytes_eq_iff,
}
use mountain_king.Prelude.Int.{ℤ}

mutual
  -- `map[string]any`, in the order in which a `range` goes through it.
  pub data Fields : Type 0 where
    field : Bytes → Value → Fields → Fields
    end : Fields

  -- `[]any`.
  pub data Items : Type 0 where
    cons : Value → Items → Items
    nil : Items

  pub data Value : Type 0 where
    object : Fields → Value
    slice : Items → Value
    string_slice : List Bytes → Value
    string : Bytes → Value
    boolean : Bool → Value
    float64 : ℕ → Value
    float32 : ℕ → Value
    int : ℤ → Value
    int64 : ℤ → Value
    json_number : Bytes → Value
    null : Value
    other : Value

unfoldable pub to_list : Items → List Value
to_list nil = []
to_list (cons v vs) = v ∷ to_list vs

-- `m[key]` of a map[string]any.
unfoldable pub lookup_field : Bytes → Fields → Option Value
lookup_field key end = none
lookup_field key (field k v fs) =
    let rest = lookup_field key fs in if bytes_eq k key then some v else rest

-- `m[key] = v`.
unfoldable pub set_field : Bytes → Value → Fields → Fields
set_field key v end = field key v end
set_field key v (field k w fs) =
    let rest = set_field key v fs in if bytes_eq k key then field key v fs else field k w rest

pub lookup_field-set_field :
    (q key : Bytes) (v : Value) (fs : Fields)
    → lookup_field q (set_field key v fs) ≡ (if bytes_eq key q then some v else lookup_field q fs)
unfolding lookup_field set_field
lookup_field-set_field q key v end = ground arith
lookup_field-set_field q key v (field k w fs) = ground (
  arith,
  lookup_field-set_field q key v fs,
  bytes_eq_iff k key,
  bytes_eq_iff key q,
  bytes_eq_iff k q,
)
