-- ===== src/Template/Keys.antt =====
-- internal/template/cache.go: the keys under which the results of templates are cached. The text of a
-- value is `fmt.Sprintf("%v", value)`, and `hash` the sum of the package xxhash in hexadecimal: both
-- are parameters.
pub mod Collisions
pub mod Prefixes
mod Tests
use mountain_king.Prelude.{
  ℕ, Bool, true, false, not, ◌&&◌, ◌||◌, Option, none, some, List, [], ◌∷◌, ◌++◌, Bytes, codes, map,
  ltb, ◌==◌, if◌then◌else◌, join,
}
use mountain_king.Prelude.Decimal.{format_int}
use mountain_king.Prelude.Int.{ℤ}
use mountain_king.Value.{Value, Fields, field, end}

pub record TemplateOrderByParam : Type 0 where
  pub field : Bytes
  pub direction : Bytes

-- `<` on strings.
unfoldable pub less : Bytes → Bytes → Bool
less s [] = false
less [] (d ∷ t) = true
less (c ∷ s) (d ∷ t) = ltb c d || (c == d && less s t)

-- `sort.Strings`.
unfoldable pub insert_text : Bytes → List Bytes → List Bytes
unfolding less
insert_text s [] = s ∷ []
insert_text s (t ∷ ts) = let rest = insert_text s ts in if less t s then t ∷ rest else s ∷ t ∷ ts

unfoldable pub sort_texts : List Bytes → List Bytes
unfolding insert_text
sort_texts [] = []
sort_texts (s ∷ ss) = insert_text s (sort_texts ss)

-- The entries of a map, by their keys; no key stands twice.
unfoldable pub insert_entry : Bytes → Value → Fields → Fields
unfolding less
insert_entry k v end = field k v end
insert_entry k v (field q w fs) =
    let rest = insert_entry k v fs in if less q k then field q w rest else field k v (field q w fs)

unfoldable pub sort_entries : Fields → Fields
unfolding insert_entry
sort_entries end = end
sort_entries (field k v fs) = insert_entry k v (sort_entries fs)

unfoldable pub or_nil : Option ℤ → Bytes
unfolding format_int
or_nil none = codes "nil"
or_nil (some n) = format_int n

abbrev order_part : TemplateOrderByParam → Bytes
order_part ob = ob.field ++ (codes ":" ++ ob.direction)

module _ (sprint : Value → Bytes) where
  unfoldable pub pairs : Fields → List Bytes
  pairs end = []
  pairs (field k v fs) = (k ++ (codes "=" ++ sprint v)) ∷ pairs fs

  unfoldable pub build_sorted_params : Fields → Bytes
  unfolding pairs sort_entries join
  build_sorted_params params = join (pairs (sort_entries params)) (codes "&")

  unfoldable pub build_canonical_string :
      Fields → List Bytes → Option ℤ → Option ℤ → List TemplateOrderByParam → Bytes
  unfolding build_sorted_params sort_texts or_nil join
  build_canonical_string params fields first offset order_by =
      build_sorted_params params
      ++ (codes "|"
          ++ (join (sort_texts fields) (codes ",")
              ++ (codes "|"
                  ++ (or_nil first
                      ++ (codes "|"
                          ++ (or_nil offset
                              ++ (codes "|" ++ join (map order_part order_by) (codes ","))))))))

  module _ (hash : Bytes → Bytes) where
    unfoldable pub generate_cache_key :
        Bytes → Fields → List Bytes → Option ℤ → Option ℤ → List TemplateOrderByParam → Bytes
    unfolding build_canonical_string
    generate_cache_key name params fields first offset order_by =
        codes "cache:template:"
        ++ (name
            ++ (codes ":" ++ hash (build_canonical_string params fields first offset order_by)))

    unfoldable pub generate_count_cache_key : Bytes → Fields → Bytes
    unfolding build_sorted_params
    generate_count_cache_key name params =
        codes "cache:template:"
        ++ (name ++ (codes ":" ++ (hash (build_sorted_params params) ++ codes ":count")))
