-- ===== src/Resolver/Connection/Pages.antt =====
-- The edges of a connection and their cursors.
use mountain_king.Prelude.{
  ℕ, zero, suc, ◌+◌, ◌≡◌, refl, ap, ◌∙◌, Option, none, some, List, [], ◌∷◌, arith, length,
}
use mountain_king.Prelude.Int.{ℤ, pos, ◌+ℤ◌}
use mountain_king.Resolver.Connection.{
  StarrocksEdge, edges_from, last_cursor, value_or_zero, build_starrocks_connection,
}
use mountain_king.Starrocks.Cursor.{encode_cursor}
use mountain_king.Template.Registry.Pages.{get_elem?}
use mountain_king.Value.{Fields}

-- The edge of a row.
abbrev pub edge_at : ℤ → ℕ → Option Fields → Option StarrocksEdge
edge_at start i none = none
edge_at start i (some row) = some (record { node = row; cursor = encode_cursor (start +ℤ pos i) })

get_elem?-edges_from :
    (start : ℤ) (j : ℕ) (rows : List Fields) (i : ℕ)
    → get_elem? (edges_from start j rows) i ≡ edge_at start (j + i) (get_elem? rows i)
unfolding get_elem? edges_from
get_elem?-edges_from start j [] i = refl
get_elem?-edges_from start j (row ∷ rows) zero =
    ap (λ n. edge_at start n (some row)) {x = j} (omega arith)
get_elem?-edges_from start j (row ∷ rows) (suc i) =
    get_elem?-edges_from start (j + 1) rows i
    ∙ ap (λ n. edge_at start n (get_elem? rows i)) {x = j + 1 + i} (omega arith)

last_cursor-edges_from :
    (start : ℤ) (j : ℕ) (row : Fields) (rows : List Fields)
    → last_cursor (edges_from start j (row ∷ rows))
      ≡ some (encode_cursor (start +ℤ pos (j + length rows)))
unfolding last_cursor edges_from
last_cursor-edges_from start j row [] =
    ap (λ n. some (encode_cursor (start +ℤ pos n))) {x = j} (omega arith)
last_cursor-edges_from start j row (next ∷ rows) =
    last_cursor-edges_from start (j + 1) next rows
    ∙ ap (λ n. some (encode_cursor (start +ℤ pos n))) {x = j + 1 + length rows} (omega arith)

-- The i-th edge of a connection holds the i-th row, with the cursor of the place of that row in the
-- whole result; and if there are rows, the page begins at the cursor of the first and ends at that of
-- the last.
pub get_elem?-build_starrocks_connection :
    (row : Fields) (rows : List Fields) (total_count offset first : Option ℤ) (i : ℕ)
    → let c = build_starrocks_connection (row ∷ rows) total_count offset first in
      (get_elem? c.edges i ≡ edge_at (value_or_zero offset) i (get_elem? (row ∷ rows) i))
      × (c.page_info.start_cursor ≡ some (encode_cursor (value_or_zero offset +ℤ pos 0)))
      × (c.page_info.end_cursor ≡ some (encode_cursor (value_or_zero offset +ℤ pos (length rows))))
unfolding build_starrocks_connection
get_elem?-build_starrocks_connection row rows total_count offset first i =
    let start = value_or_zero offset in
    (
      get_elem?-edges_from start 0 (row ∷ rows) i
          ∙ ap (λ n. edge_at start n (get_elem? (row ∷ rows) i)) {x = 0 + i} (omega arith),
      refl,
      last_cursor-edges_from start 0 row rows
          ∙ ap (λ n. some (encode_cursor (start +ℤ pos n))) {x = 0 + length rows} (omega arith),
    )
