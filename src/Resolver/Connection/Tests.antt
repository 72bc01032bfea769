-- ===== src/Resolver/Connection/Tests.antt =====
-- Connections of concrete rows.
use mountain_king.Prelude.{◌≡◌, refl, true, some, [], ◌∷◌, codes}
use mountain_king.Prelude.Int.{pos}
use mountain_king.Resolver.Connection.{build_starrocks_connection}
use mountain_king.Value.{Fields, field, end, int64}

abbrev row : Fields
row = field (codes "id") (int64 (pos 1)) end

-- A full page says that there is a next one.
full_page :
    (build_starrocks_connection
      (row ∷ row ∷ [])
      (some (pos 9))
      (some (pos 4))
      (some (pos 2))).page_info.has_next_page
    ≡ true
unfolding build_starrocks_connection
full_page = refl
