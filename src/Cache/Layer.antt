-- ===== src/Cache/Layer.antt =====
-- internal/cache/layer.go: `CacheLayer`, in front of any cache backend. `singleflight` lets one caller
-- at a time run the loader of a key; a call here is the one that runs it. The package gob and the
-- random draw of the jitter are parameters.
mod Tests
use mountain_king.Prelude.{
  zero, suc, Bool, true, false, Option, none, some, List, [], ◌∷◌, ◌++◌, Bytes, codes, bytes_eq,
  if◌then◌else◌, ℕ, suc, ◌*◌,
}
use mountain_king.Prelude.Int.{ℤ, pos, negsuc}

-- What `Get` of a backend returns: an error, no entry, or an entry.
pub data Lookup : Type 0 where
  broken missed : Lookup
  hit : (value : Bytes) → Lookup

-- The interface of cache.go, over the states of a backend. `GetOrLoad` drops the errors of `Set` and
-- `Delete`, so these are the states that they leave, failed or not.
pub record Backend (S : Type 0) : Type 0 where
  pub get : S → Bytes → Lookup × S
  pub set : S → Bytes → Bytes → ℤ → S
  pub delete : S → Bytes → S
  pub delete_by_prefix : S → Bytes → S
  pub clear : S → S

pub record CacheLayer (S : Type 0) : Type 0 where
  pub backend : Backend S
  pub ttl_config : Bytes → Option ℤ
  pub default_ttl : ℤ
  pub jitter_pct : ℤ
  pub empty_ttl : ℤ

-- A second, in nanoseconds.
abbrev second : ℕ → ℤ
second n = pos (n * 1000000000)

abbrev or_default : ℤ → ℤ → ℤ
or_default (pos zero) d = d
or_default t d = t

unfoldable pub new_cache_layer :
    {S : Type 0} → Backend S → (Bytes → Option ℤ) → ℤ → ℤ → ℤ → CacheLayer S
new_cache_layer backend ttl_config default_ttl jitter_pct empty_ttl = record {
  backend = backend;
  ttl_config = ttl_config;
  default_ttl = or_default default_ttl (second 60);
  jitter_pct = elim jitter_pct [ pos n ↦ pos n | negsuc n ↦ pos 0 ];
  empty_ttl = or_default empty_ttl (second 30);
}

abbrev pub empty_marker : Bytes
empty_marker = codes "__empty__"

-- What the loader returns.
pub data Loaded : Type 0 where
  load_error : Loaded
  loaded : (result : Bytes) → Loaded

-- The answer, whether the loader was called, and the state that is left.
pub record Outcome (S : Type 0) : Type 0 where
  pub answer : Loaded
  pub called : Bool
  pub state : S

unfoldable pub ttl_for_datasource : {S : Type 0} → CacheLayer S → Bytes → ℤ
ttl_for_datasource cl datasource = elim (cl.ttl_config datasource) [
  | some ttl ↦ ttl
  | none ↦ cl.default_ttl
]

-- `drawn` is the duration with the random part.
unfoldable pub apply_jitter : {S : Type 0} → CacheLayer S → ℤ → (ℤ → ℤ) → ℤ
apply_jitter cl ttl draw = elim cl.jitter_pct [
  | pos (suc n) ↦ elim (draw ttl) [ pos (suc d) ↦ pos (suc d) | _ ↦ ttl ]
  | _ ↦ ttl
]

-- The packages gob and math/rand.
pub record Codec : Type 0 where
  pub gob_encode : Bytes → Option Bytes
  pub gob_decode : Bytes → Option Bytes
  pub draw : ℤ → ℤ

module _ {S : Type 0} (codec : Codec) (cl : CacheLayer S) where
  unfoldable pub stored : Bytes → Option Bytes → ℤ → S → S
  stored key none ttl s = s
  stored key (some encoded) ttl s = cl.backend.set s key encoded ttl

  -- The function that `singleflight` runs.
  unfoldable pub load_and_store : Bytes → Bytes → Loaded → S → Outcome S
  unfolding stored ttl_for_datasource apply_jitter
  load_and_store key datasource load_error s = record {
    answer = load_error;
    called = true;
    state = s;
  }
  load_and_store key datasource (loaded []) s = record {
    answer = loaded [];
    called = true;
    state = cl.backend.set s key empty_marker cl.empty_ttl;
  }
  load_and_store key datasource (loaded (c ∷ result)) s = record {
    answer = loaded (c ∷ result);
    called = true;
    state =
        stored key (codec.gob_encode (c ∷ result))
          (apply_jitter cl (ttl_for_datasource cl datasource) codec.draw) s;
  }

  -- The answer by what the cache has.
  unfoldable pub answer_lookup : Bytes → Bytes → Loaded → Lookup → S → Outcome S
  unfolding load_and_store bytes_eq
  answer_lookup key datasource loader broken s = load_and_store key datasource loader s
  answer_lookup key datasource loader missed s = load_and_store key datasource loader s
  answer_lookup key datasource loader (hit cached) s =
      let reloaded = load_and_store key datasource loader (cl.backend.delete s key) in
      if bytes_eq cached empty_marker
      then record { answer = loaded []; called = false; state = s }
      else elim (codec.gob_decode cached) [
        | some decoded ↦ record { answer = loaded decoded; called = false; state = s }
        | none ↦ reloaded
      ]

  unfoldable pub get_or_load : Bytes → Bytes → Loaded → S → Outcome S
  unfolding answer_lookup
  get_or_load key datasource loader s =
      let (found, s') = cl.backend.get s key in answer_lookup key datasource loader found s'

  unfoldable pub clear_by_datasource : Bytes → S → S
  clear_by_datasource datasource s =
      cl.backend.delete_by_prefix s (codes "cache:" ++ (datasource ++ codes ":"))

  unfoldable pub clear_all : S → S
  clear_all s = cl.backend.clear s
