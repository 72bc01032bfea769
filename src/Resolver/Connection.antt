-- ===== src/Resolver/Connection.antt =====
-- internal/graphql/resolver/query.go: `buildStarRocksConnection`, which makes a Relay connection of the
-- rows of a page.
pub mod Pages
mod Tests
use mountain_king.Prelude.{
  ℕ, zero, suc, ◌+◌, Bool, true, false, ◌&&◌, Option, none, some, List, [], ◌∷◌, Bytes, length, leb,
  if◌then◌else◌,
}
use mountain_king.Prelude.Int.{ℤ, pos, negsuc, ◌+ℤ◌, ltb_ℤ, leb_ℤ}
use mountain_king.Starrocks.Cursor.{encode_cursor}
use mountain_king.Value.{Fields}

pub record StarrocksEdge : Type 0 where
  pub node : Fields
  pub cursor : Bytes

pub record PageInfo : Type 0 where
  pub has_next_page : Bool
  pub has_previous_page : Bool
  pub start_cursor : Option Bytes
  pub end_cursor : Option Bytes

pub record StarrocksConnection : Type 0 where
  pub edges : List StarrocksEdge
  pub nodes : List Fields
  pub page_info : PageInfo
  pub total_count : ℤ

-- The loop over the rows, from the index `i`.
unfoldable pub edges_from : ℤ → ℕ → List Fields → List StarrocksEdge
unfolding encode_cursor ◌+ℤ◌
edges_from start i [] = []
edges_from start i (row ∷ rows) =
    record { node = row; cursor = encode_cursor (start +ℤ pos i) } ∷ edges_from start (i + 1) rows

unfoldable pub first_cursor : List StarrocksEdge → Option Bytes
first_cursor [] = none
first_cursor (e ∷ es) = some e.cursor

unfoldable pub last_cursor : List StarrocksEdge → Option Bytes
last_cursor [] = none
last_cursor (e ∷ []) = some e.cursor
last_cursor (e ∷ f ∷ es) = last_cursor (f ∷ es)

abbrev pub value_or_zero : Option ℤ → ℤ
value_or_zero none = pos 0
value_or_zero (some n) = n

abbrev pub is_full : Option ℤ → ℕ → Bool
is_full none n = false
is_full (some first) n = leb_ℤ first (pos n)

unfoldable pub build_starrocks_connection :
    List Fields → Option ℤ → Option ℤ → Option ℤ → StarrocksConnection
unfolding edges_from first_cursor last_cursor
build_starrocks_connection rows total_count offset first =
    let start = value_or_zero offset in
    let edges = edges_from start 0 rows in
    record {
      edges = edges;
      nodes = rows;
      page_info = record {
        has_next_page = is_full first (length rows);
        has_previous_page = ltb_ℤ (pos 0) start;
        start_cursor = first_cursor edges;
        end_cursor = last_cursor edges;
      };
      total_count = value_or_zero total_count;
    }
