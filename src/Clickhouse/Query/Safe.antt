-- ===== src/Clickhouse/Query/Safe.antt =====
-- What the builder of ClickHouse returns is safe, since the builder of StarRocks returns it.
use mountain_king.Datasource.Request.{PaginationParams, QueryRequest}
use mountain_king.Errors.{ok}
use mountain_king.Prelude.{◌≡◌, Option, none, some, Bytes, length, arith, subst}
use mountain_king.Prelude.Int.{ℤ, pos, negsuc}
use mountain_king.Starrocks.Fragment.{IsFragment}
use mountain_king.Starrocks.Query.{SqlQueryBuilder, Sql, limit_of, offset_of}
use mountain_king.Starrocks.Query.Limit.{IsCount, HasCounts}
use mountain_king.Starrocks.Query.Placeholders.{build-IsSql}
use mountain_king.Clickhouse.Query.{clamp_limit, clamp_offset, map_option, build}
use mountain_king.Clickhouse.Query.Refines.{
  clamped, clamped_request, limit_of-clamped, offset_of-clamped, build-Refines,
}

limit-IsCount : (n : Option ℤ) → IsCount (map_option clamp_limit n)
unfolding clamp_limit
limit-IsCount none = tt
limit-IsCount (some (pos n)) = ground arith
limit-IsCount (some (negsuc n)) = tt

offset-IsCount : (n : Option ℤ) → IsCount (map_option clamp_offset n)
unfolding clamp_offset
offset-IsCount none = tt
offset-IsCount (some (pos n)) = tt
offset-IsCount (some (negsuc n)) = tt

clamped-HasCounts : (p : Option PaginationParams) → HasCounts (clamped p)
clamped-HasCounts none = tt
clamped-HasCounts (some p) = (
  subst IsCount (limit_of-clamped p.first p.limit p.offset p.after) (limit-IsCount (limit_of p)),
  subst IsCount (offset_of-clamped p.first p.limit p.offset p.after) (offset-IsCount (offset_of p)),
)

-- A SELECT for ClickHouse holds one placeholder for each parameter, in plain text, whatever the
-- numbers of its page are.
pub build-IsFragment :
    (b : SqlQueryBuilder) (req : QueryRequest) (table : Bytes) (r : Sql)
    → build b req table ≡ ok r
    → IsFragment (length r.1) r.0
build-IsFragment b req table r h =
    build-IsSql b (clamped_request req) table r (build-Refines b req table r h)
      (clamped-HasCounts req.pagination)
