-- ===== src/Starrocks/Query/Limit.antt =====
-- The LIMIT clause is a fragment without placeholders, if its numbers are not negative.
use mountain_king.Datasource.Request.{PaginationParams}
use mountain_king.Prelude.{refl, Option, none, some, String, codes}
use mountain_king.Prelude.Decimal.{format_int, format_nat-digits}
use mountain_king.Prelude.Int.{ℤ, pos, negsuc}
use mountain_king.Starrocks.Fragment.{
  IsFragment, nil-IsFragment, append-IsFragment, codes-IsFragment, holes, digit-IsFragment,
}
use mountain_king.Starrocks.Fragment.Lists.{
  AreFragments, none_left, more, append-AreFragments, join-IsFragment,
}
use mountain_king.Starrocks.Query.{limit_of, offset_of, keyword, build_limit_clause}

-- No number, or one that is not negative.
abbrev pub IsCount : Option ℤ → Type 0
IsCount none = Unit
IsCount (some (pos n)) = Unit
IsCount (some (negsuc n)) = ⊥

keyword-AreFragments :
    (word : String) (n : Option ℤ)
    → IsFragment 0 (codes word)
    → IsCount n
    → AreFragments 0 (keyword word n)
unfolding keyword format_int
keyword-AreFragments word none p c = none_left
keyword-AreFragments word (some (pos n)) p c =
    more (append-IsFragment p (digit-IsFragment _ (format_nat-digits n))) none_left refl
keyword-AreFragments word (some (negsuc n)) p c = absurd c

-- The numbers of a page, as the builder takes them, are not negative.
abbrev pub HasCounts : Option PaginationParams → Type 0
HasCounts none = Unit
HasCounts (some p) = IsCount (limit_of p) × IsCount (offset_of p)

pub limit-IsFragment :
    (p : Option PaginationParams) → HasCounts p → IsFragment 0 (build_limit_clause p)
unfolding build_limit_clause holes
limit-IsFragment none h = nil-IsFragment
limit-IsFragment (some p) h = join-IsFragment (codes " ") (codes-IsFragment " " 0 refl) (
    append-AreFragments
      (keyword-AreFragments "LIMIT " (limit_of p) (codes-IsFragment "LIMIT " 0 refl) h.0)
      (keyword-AreFragments "OFFSET " (offset_of p) (codes-IsFragment "OFFSET " 0 refl) h.1) refl)
