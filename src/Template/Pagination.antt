-- ===== src/Template/Pagination.antt =====
-- internal/template/pagination.go: the query around a rendered template.
pub mod Wrapped
mod Tests
use mountain_king.Errors.{Result, ok, err, ◌>>=◌, validation_error, err_validation_invalid_field}
use mountain_king.Prelude.{
  ℕ, zero, suc, ◌+◌, ◌-◌, ◌^◌, Bool, true, false, Option, none, some, List, [], ◌∷◌, ◌++◌, Bytes,
  codes, map, ltb, ◌==◌, if◌then◌else◌, join, bytes_eq,
}
use mountain_king.Prelude.Decimal.{format_int}
use mountain_king.Prelude.Int.{ℤ, pos, negsuc}
use mountain_king.Prometheus.Validator.{to_lower}
use mountain_king.Template.FuncMap.{safe_identifier}
use mountain_king.Template.Keys.{TemplateOrderByParam}

-- `n + 1` at the type int of 64 bits.
unfoldable pub next_int : ℤ → ℤ
next_int (pos n) = if n == 2 ^ 63 - 1 then negsuc n else pos (n + 1)
next_int (negsuc zero) = pos 0
next_int (negsuc (suc n)) = negsuc n

unfoldable pub limit_with : Option ℤ → ℤ → ℤ
unfolding next_int
limit_with none max_result_rows = next_int max_result_rows
limit_with (some first) max_result_rows = next_int first

abbrev offset_or_zero : Option ℤ → ℤ
offset_or_zero none = pos 0
offset_or_zero (some offset) = offset

unfoldable pub safe_field : Bytes → Result Bytes
unfolding safe_identifier
safe_field f = elim (safe_identifier f) [
  | none ↦ validation_error err_validation_invalid_field
  | some safe ↦ ok safe
]

unfoldable pub safe_parts : List Bytes → Result (List Bytes)
unfolding safe_field
safe_parts [] = ok []
safe_parts (f ∷ fs) = do safe ← safe_field f; parts ← safe_parts fs; ok (safe ∷ parts)

unfoldable pub field_selection : List Bytes → Result Bytes
unfolding safe_parts join
field_selection [] = ok (codes "*")
field_selection (f ∷ fs) = do parts ← safe_parts (f ∷ fs); ok (join parts (codes ", "))

-- `strings.EqualFold(direction, "DESC")`.
unfoldable pub direction_of : Bytes → Bytes
unfolding to_lower bytes_eq
direction_of direction =
    if bytes_eq (map to_lower direction) (codes "desc") then codes "DESC" else codes "ASC"

unfoldable pub order_parts : List TemplateOrderByParam → Result (List Bytes)
unfolding safe_field direction_of
order_parts [] = ok []
order_parts (ob ∷ obs) = do
  safe ← safe_field ob.field
  parts ← order_parts obs
  ok ((safe ++ (codes " " ++ direction_of ob.direction)) ∷ parts)

unfoldable pub order_clause : List TemplateOrderByParam → Result Bytes
unfolding order_parts join
order_clause [] = ok []
order_clause (ob ∷ obs) = do
  parts ← order_parts (ob ∷ obs)
  ok (codes " ORDER BY " ++ join parts (codes ", "))

unfoldable pub wrap_with_pagination :
    Bytes → List Bytes → List TemplateOrderByParam → Option ℤ → Option ℤ → ℤ → Result Bytes
unfolding limit_with field_selection order_clause format_int
wrap_with_pagination rendered fields order_by first offset max_result_rows = do
  selection ← field_selection fields
  order ← order_clause order_by
  ok (
      codes "SELECT "
      ++ (selection
          ++ (codes " FROM ("
              ++ (rendered
                  ++ (codes ") AS __tq_wrapper__"
                      ++ (order
                          ++ (codes " LIMIT "
                              ++ (format_int (limit_with first max_result_rows)
                                  ++ (codes " OFFSET "
                                      ++ format_int (offset_or_zero offset))))))))))

unfoldable pub wrap_with_count : Bytes → Bytes
wrap_with_count rendered =
    codes "SELECT COUNT(*) AS total_count FROM (" ++ (rendered ++ codes ") AS __tq_cnt__")
