-- ===== src/Cache/Memory/Reads.antt =====
-- What the cache returns after it was written and cleared.
use mountain_king.Cache.Lru.{Lru, MemoryCacheEntry, lookup, contains}
use mountain_king.Cache.Lru.Lists.{lookup-delete}
use mountain_king.Cache.Memory.{MemoryCache, remove, get, add, set, delete_keys, delete_by_prefix}
use mountain_king.Cache.Memory.Room.{IsAccounted, roomy, roomy-HasRoom}
use mountain_king.Prelude.{
  ℕ, ◌+◌, ◌≡◌, ap, ◌&&◌, Option, none, some, List, [], ◌∷◌, arith, Bytes, bytes_eq_iff, has_prefix,
  if◌then◌else◌, Option-cases, inl, inr, ltb,
}

module _ (lru : Lru) where
  -- The entry of a key.
  abbrev pub entry : Bytes → MemoryCache lru → Option MemoryCacheEntry
  entry q mc = lookup q (lru.entries mc.cache)

  entry-delete_keys :
      (prefix q : Bytes) (ks : List Bytes) (mc : MemoryCache lru)
      → entry q (delete_keys lru prefix ks mc)
        ≡ (if has_prefix q prefix && contains q ks then none else entry q mc)
  unfolding delete_keys contains remove
  entry-delete_keys prefix q [] mc = ground arith
  entry-delete_keys prefix q (k ∷ ks) mc = ground (
    arith,
    entry-delete_keys prefix q ks (remove lru k mc),
    entry-delete_keys prefix q ks mc,
    ap (lookup q) (lru.remove-entries k mc.cache),
    lookup-delete q k (lru.entries mc.cache),
    bytes_eq_iff q k,
    bytes_eq_iff k q,
  )

  -- Clearing a prefix removes the entries of the keys that begin with it, all of them and no other.
  pub entry-delete_by_prefix :
      (prefix q : Bytes) (mc : MemoryCache lru)
      → entry q (delete_by_prefix lru prefix mc)
        ≡ (if has_prefix q prefix then none else entry q mc)
  unfolding delete_by_prefix
  entry-delete_by_prefix prefix q mc = elim (Option-cases (entry q mc)) [
    | inl e ↦ ground (arith, entry-delete_keys prefix q (lru.keys mc.cache) mc)
    | inr (x, e) ↦
        ground (
          arith,
          entry-delete_keys prefix q (lru.keys mc.cache) mc,
          lru.keys-complete q x mc.cache e,
        )
  ]

  entry-add :
      (key : Bytes) (e : MemoryCacheEntry) (mc : MemoryCache lru)
      → entry key mc ≡ none
      → entry key (add lru key e mc) ≡ some e
  unfolding add lookup
  entry-add key e mc a =
      ground (arith, ap (lookup key) (lru.add-entries key e mc.cache a), bytes_eq_iff key key)

  entry-set :
      (now : ℕ) (key value : Bytes) (ttl : ℕ) (mc : MemoryCache lru)
      → IsAccounted lru mc
      → entry key (set lru now key value ttl mc)
        ≡ some (record { value = value; expires_at = now + ttl })
  unfolding set roomy
  entry-set now key value ttl mc h =
      let r = roomy-HasRoom lru key value mc h in entry-add key _ (roomy lru key value mc) r.absent

  -- A read of the key that was just written returns the value up to the moment at which its time to
  -- live is over, and nothing from the next on.
  pub get-set :
      (now later : ℕ) (key value : Bytes) (ttl : ℕ) (mc : MemoryCache lru)
      → IsAccounted lru mc
      → (get lru later key (set lru now key value ttl mc)).0
        ≡ (if ltb (now + ttl) later then none else some value)
  unfolding get
  get-set now later key value ttl mc h =
      let mc' = set lru now key value ttl mc in
      ground (arith, lru.get-value key mc'.cache, entry-set now key value ttl mc h)
