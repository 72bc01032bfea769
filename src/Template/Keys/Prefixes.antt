-- ===== src/Template/Keys/Prefixes.antt =====
-- Which keys a clearing removes.
use mountain_king.Prelude.{
  ◌≡◌, ◌≢◌, refl, ◌∙◌, Option, List, [], ◌∷◌, ◌++◌, Bytes, codes, arith, All, has_prefix, bytes_eq,
}
use mountain_king.Prelude.Int.{ℤ}
use mountain_king.Value.{Value, Fields}
use mountain_king.Template.Keys.{TemplateOrderByParam, generate_cache_key, generate_count_cache_key}

-- The keys of a data source.
abbrev pub prefix_of : Bytes → Bytes
prefix_of datasource = codes "cache:" ++ (datasource ++ codes ":")

-- A name without a colon.
abbrev pub IsSimple : Bytes → Type 0
IsSimple = All (λ c. c ≢ b':')

has_prefix-append : (a s t : Bytes) → has_prefix (a ++ s) (a ++ t) ≡ has_prefix s t
unfolding has_prefix
has_prefix-append [] s t = refl
has_prefix-append (c ∷ a) s t = ground (arith, has_prefix-append a s t)

has_prefix-name :
    (name other s : Bytes)
    → IsSimple name
    → IsSimple other
    → has_prefix (name ++ b':' ∷ s) (other ++ b':' ∷ []) ≡ bytes_eq name other
unfolding has_prefix bytes_eq
has_prefix-name [] [] s p q = refl
has_prefix-name [] (d ∷ other) s p (q, qs) = ground arith
has_prefix-name (c ∷ name) [] s (p, ps) q = ground arith
has_prefix-name (c ∷ name) (d ∷ other) s (p, ps) (q, qs) =
    ground (arith, has_prefix-name name other s ps qs)

module _ (sprint : Value → Bytes) (hash : Bytes → Bytes) where
  -- The clearing that a reload makes for a template removes a result and a count exactly if they are
  -- of that template, for names without colons.
  pub has_prefix-generate_cache_key :
      (name other : Bytes) (params : Fields) (fields : List Bytes) (first offset : Option ℤ)
      (order_by : List TemplateOrderByParam)
      → IsSimple name
      → IsSimple other
      → (has_prefix
            (generate_cache_key sprint hash name params fields first offset order_by)
            (prefix_of (codes "template:" ++ other))
          ≡ bytes_eq name other)
        × (has_prefix
              (generate_count_cache_key sprint hash name params)
              (prefix_of (codes "template:" ++ other))
            ≡ bytes_eq name other)
  unfolding generate_cache_key generate_count_cache_key
  has_prefix-generate_cache_key name other params fields first offset order_by p q = (
    has_prefix-append (codes "cache:template:") _ (other ++ codes ":")
        ∙ has_prefix-name name other _ p q,
    has_prefix-append (codes "cache:template:") _ (other ++ codes ":")
        ∙ has_prefix-name name other _ p q,
  )

  -- The clearing that follows a write to a data source removes no result of a template, unless the
  -- data source has the name `template`.
  pub has_prefix-datasource :
      (datasource name : Bytes) (params : Fields) (fields : List Bytes) (first offset : Option ℤ)
      (order_by : List TemplateOrderByParam)
      → IsSimple datasource
      → has_prefix
          (generate_cache_key sprint hash name params fields first offset order_by)
          (prefix_of datasource)
        ≡ bytes_eq (codes "template") datasource
  unfolding generate_cache_key
  has_prefix-datasource datasource name params fields first offset order_by p =
      has_prefix-append (codes "cache:") _ (datasource ++ codes ":")
      ∙ has_prefix-name (codes "template") datasource _ (omega arith) p
