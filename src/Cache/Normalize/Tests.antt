-- ===== src/Cache/Normalize/Tests.antt =====
-- Queries that are one after the normalization.
use mountain_king.Cache.Normalize.{normalize_query, generate}
use mountain_king.Prelude.{◌≡◌, refl, Bytes, codes}

comments_and_keywords :
    normalize_query (codes "QUERY {a # b } \"\n...F }") ≡ codes "query { a ... F }"
unfolding normalize_query
comments_and_keywords = refl

-- Spaces inside of a literal are lost as well: two different queries have one key.
literal_spaces :
    (sum : Bytes → Bytes) (datasource variables : Bytes)
    → generate sum datasource (codes "{ f(s: \"a  b\") }") variables
      ≡ generate sum datasource (codes "{ f(s: \"a b\") }") variables
unfolding generate
literal_spaces sum datasource variables = refl
