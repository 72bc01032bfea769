-- ===== src/Template/Keys/Tests.antt =====
-- Keys of concrete requests.
use mountain_king.Prelude.{◌≡◌, ◌≢◌, refl, none, some, [], ◌∷◌, Bytes, codes}
use mountain_king.Prelude.Int.{pos}
use mountain_king.Value.{Value, Fields, string}
use mountain_king.Template.Keys.{less, build_canonical_string, generate_cache_key}
use mountain_king.Template.Keys.Collisions.{two, generate_cache_key-two}

abbrev text_of : Value → Bytes
text_of (string s) = s
text_of v = []

abbrev params : Fields
params = two (codes "city") (codes "name") (codes "oslo") (codes "x")

canonical :
    build_canonical_string text_of params (codes "b" ∷ codes "a" ∷ []) (some (pos 10)) none []
    ≡ codes "city=oslo&name=x|a,b|10|nil|"
unfolding build_canonical_string
canonical = refl

generate_cache_key-two_example :
    (two (codes "a") (codes "b") (codes "1&b=2") (codes "3")
      ≢ two (codes "a") (codes "b") (codes "1") (codes "2&b=3"))
    × (generate_cache_key text_of
          (λ s. s)
          (codes "t")
          (two (codes "a") (codes "b") (codes "1&b=2") (codes "3"))
          []
          none
          none
          []
        ≡ generate_cache_key text_of
            (λ s. s)
            (codes "t")
            (two (codes "a") (codes "b") (codes "1") (codes "2&b=3"))
            []
            none
            none
            [])
unfolding less
generate_cache_key-two_example =
    generate_cache_key-two text_of (λ s. refl) (λ s. s) (codes "t") (codes "a") (codes "b")
      (codes "1") (codes "2") (codes "3") [] none none [] refl
