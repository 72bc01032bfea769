-- ===== src/Template/Counts.antt =====
-- internal/template/engine.go: the number that the rows of a count hold.
use mountain_king.Prelude.{none, some, List, [], ◌∷◌, codes}
use mountain_king.Prelude.Decimal.{sscanf_int}
use mountain_king.Prelude.Int.{ℤ, pos}
use mountain_king.Template.Params.{parse_int, Numbers}
use mountain_king.Value.{
  Value, Fields, field, end, int64, int, float64, json_number, string, lookup_field,
}

-- `toInt64`, where `Sscanf` leaves 0 for text that is no number.
unfoldable pub to_int64 : Numbers → Value → ℤ
unfolding parse_int sscanf_int
to_int64 numbers (int64 z) = z
to_int64 numbers (int z) = z
to_int64 numbers (float64 bits) = numbers.to_int64 bits
to_int64 numbers (json_number n) = elim (parse_int n) [ some z ↦ z | none ↦ pos 0 ]
to_int64 numbers (string s) = elim (sscanf_int s) [ some z ↦ z | none ↦ pos 0 ]
to_int64 numbers v = pos 0

-- The first value of a row without the column `total_count`.
abbrev first_value : Numbers → Fields → ℤ
unfolding to_int64
first_value numbers end = pos 0
first_value numbers (field k v fs) = to_int64 numbers v

unfoldable pub extract_count : Numbers → List Fields → ℤ
unfolding to_int64 lookup_field first_value
extract_count numbers [] = pos 0
extract_count numbers (row ∷ rows) = elim (lookup_field (codes "total_count") row) [
  | some v ↦ to_int64 numbers v
  | none ↦ first_value numbers row
]
