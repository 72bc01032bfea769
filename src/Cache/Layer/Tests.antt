-- ===== src/Cache/Layer/Tests.antt =====
-- Reads through a concrete backend.
use mountain_king.Cache.Layer.{
  Lookup, missed, hit, Backend, CacheLayer, Codec, load_error, loaded, get_or_load, new_cache_layer,
}
use mountain_king.Prelude.{
  zero, ◌≡◌, refl, Option, none, some, [], ◌∷◌, Bytes, codes, bytes_eq, has_prefix, if◌then◌else◌,
}
use mountain_king.Prelude.Int.{pos}

-- A map that never forgets.
abbrev State : Type 0
State = Bytes → Lookup

abbrev map_backend : Backend State
map_backend = record {
  get = λ s k. (s k, s);
  set = λ s k v ttl q. if bytes_eq q k then hit v else s q;
  delete = λ s k q. if bytes_eq q k then missed else s q;
  delete_by_prefix = λ s p q. if has_prefix q p then missed else s q;
  clear = λ s q. missed;
}

-- A byte in front of the value.
abbrev tagged : Bytes → Option Bytes
tagged [] = none
tagged (zero ∷ s) = some s
tagged (c ∷ s) = none

abbrev tag : Codec
tag = record { gob_encode = λ s. some (0 ∷ s); gob_decode = tagged; draw = λ ttl. ttl }

layer : CacheLayer State
unfolding new_cache_layer
layer = new_cache_layer map_backend (λ _. none) (pos 0) (pos 10) (pos 0)

abbrev key : Bytes
key = codes "cache:db:01"

-- A second read, whose loader fails, is answered from the cache.
second_read :
    (get_or_load tag layer key
      (codes "db")
      load_error
      (get_or_load tag layer key (codes "db") (loaded (codes "one")) (λ _. missed)).state).answer
    ≡ loaded (codes "one")
unfolding layer get_or_load bytes_eq
second_read = refl
