-- ===== src/Starrocks/Query/Pages.antt =====
-- The page that a cursor of the server selects.
use mountain_king.Datasource.Request.{PaginationParams}
use mountain_king.Prelude.{◌≡◌, none, some}
use mountain_king.Prelude.Int.{ℤ}
use mountain_king.Starrocks.Cursor.{decode_cursor-encode_cursor, encode_cursor}
use mountain_king.Starrocks.Query.{build_limit_clause, offset_of}

-- With a cursor that the server wrote in `after`, whatever its index, the query has no OFFSET: it is
-- the query of the first page, and the `offset` of the request is dropped too.
pub build_limit_clause-encode_cursor :
    (p : PaginationParams) (index : ℤ)
    → build_limit_clause (some (record p { after = some (encode_cursor index) }))
      ≡ build_limit_clause (some (record p { after = none; offset = none }))
unfolding build_limit_clause
build_limit_clause-encode_cursor p index = rw (decode_cursor-encode_cursor index, offset_of)
