-- ===== src/Scalar/AnyValue/Tests.antt =====
-- Values that are taken and refused.
use mountain_king.Prelude.{ℕ, zero, suc, ◌≡◌, ◌≤◌, ◌↔◌, refl, true, codes}
use mountain_king.Scalar.AnyValue.{
  unmarshal_any_value, accepted, refused, at_key, at_index, unsupported_type,
}
use mountain_king.Scalar.AnyValue.Depth.{unmarshal_any_value-accepted, height, is_json}
use mountain_king.Value.{Value, null, other, slice, nil, cons, object, field, end}

abbrev nested : ℕ → Value
nested zero = null
nested (suc n) = slice (cons (nested n) nil)

deepest : unmarshal_any_value (nested 64) ≡ accepted (nested 64)
unfolding unmarshal_any_value
deepest = refl

bad_leaf :
    unmarshal_any_value (object (field (codes "a") (slice (cons null (cons other nil))) end))
    ≡ refused (at_key (codes "a") (at_index 1 unsupported_type))
unfolding unmarshal_any_value
bad_leaf = refl

unmarshal_any_value-accepted_example :
    (unmarshal_any_value (nested 65) ≡ accepted (nested 65))
    ↔ ((is_json (nested 65) ≡ true) × (height (nested 65) ≤ 64))
unmarshal_any_value-accepted_example = unmarshal_any_value-accepted (nested 65)
