-- ===== src/Clickhouse/TypeMapper/Cached.antt =====
-- The cache of the type mapper changes no answer.
use mountain_king.Clickhouse.TypeMapper.{
  map_found, map_type, map_type_recursive, max_type_recursion_depth,
}
use mountain_king.Prelude.{
  suc, sym, ◌≡◌, refl, ap, ◌∙◌, Option, none, some, List, [], ◌∷◌, Bytes, map, bytes_eq,
  bytes_eq_iff, arith, Bool-cases, inl, inr,
}
use mountain_king.Starrocks.TypeMapper.{GraphqlType}
use mountain_king.Table.{Table, find, put, find-put}

-- The type of a text, computed anew.
abbrev pub resolved : Bytes → GraphqlType
resolved sql_type = map_type_recursive (suc max_type_recursion_depth) sql_type

-- Calls one after the other over one cache.
unfoldable pub map_types : List Bytes → Table GraphqlType → List GraphqlType × Table GraphqlType
unfolding map_type
map_types [] cache = ([], cache)
map_types (s ∷ ss) cache =
    let (t, cache') = map_type s cache in
    let (ts, cache'') = map_types ss cache' in (t ∷ ts, cache'')

-- An entry is what would be computed anew.
abbrev IsSound : Table GraphqlType → Type 0
IsSound cache = (s : Bytes) (t : GraphqlType) → find s cache ≡ some t → t ≡ resolved s

put-IsSound :
    (s : Bytes) (cache : Table GraphqlType) → IsSound cache → IsSound (put s (resolved s) cache)
put-IsSound s cache sound q t found =
    let placed = find-put q s (resolved s) cache in
    elim (Bool-cases (bytes_eq s q)) [
      | inl same ↦
          let e : s ≡ q = ground (arith, bytes_eq_iff s q) in
          let here : some (resolved s) ≡ some t = sym (placed ∙ rw same refl) ∙ found in
          let this : resolved s ≡ t = cc in sym this ∙ ap resolved e
      | inr other ↦ sound q t (sym (placed ∙ rw other refl) ∙ found)
    ]

map_found-IsSound :
    (s : Bytes) (cache : Table GraphqlType) (found : Option GraphqlType)
    → find s cache ≡ found
    → IsSound cache
    → ((map_found s cache found).0 ≡ resolved s) × IsSound (map_found s cache found).1
unfolding map_found
map_found-IsSound s cache none new sound = (refl, put-IsSound s cache sound)
map_found-IsSound s cache (some t) known sound = (sound s t known, sound)

map_types-IsSound :
    (ss : List Bytes) (cache : Table GraphqlType)
    → IsSound cache
    → (map_types ss cache).0 ≡ map resolved ss
unfolding map_types map_type
map_types-IsSound [] cache sound = refl
map_types-IsSound (s ∷ ss) cache sound =
    let (here, sound') = map_found-IsSound s cache (find s cache) refl sound in
    let rest = map_types-IsSound ss (map_type s cache).1 sound' in cc

-- Whatever types are asked for, in whatever order and however often, a mapper that began with an empty
-- cache answers each with the type that the text has, computed anew.
pub map_types-resolved : (ss : List Bytes) → (map_types ss []).0 ≡ map resolved ss
unfolding find
map_types-resolved ss = map_types-IsSound ss [] (λ s t found. cc)
