-- ===== src/Cache/Memory.antt =====
-- internal/cache/memory.go: the cache in memory, over an LRU cache with a callback on evictions. The
-- atomic counter `memUsed` is an integer; the operations run one after the other.
mod Room
mod Usage
pub mod Reads
mod Tests
use mountain_king.Cache.Lru.{Lru, MemoryCacheEntry}
use mountain_king.Prelude.{
  ℕ, zero, suc, ◌+◌, Bool, true, false, not, ◌&&◌, Option, none, some, List, [], ◌∷◌, Bytes, ltb,
  has_prefix, if◌then◌else◌, length,
}
use mountain_king.Prelude.Int.{ℤ, pos, ◌+ℤ◌, sub_ℕ, ltb_ℤ}

module _ (lru : Lru) where
  open lru use {Store}

  pub record MemoryCache : Type 0 where
    pub cache : Store
    pub mem_used : ℤ
    pub max_memory : ℕ

  -- The callback, for each entry that the LRU cache evicts: `memUsed.Add(-len(entry.Value))`.
  unfoldable pub on_evict : List MemoryCacheEntry → ℤ → ℤ
  on_evict [] used = used
  on_evict (e ∷ es) used = on_evict es (used +ℤ sub_ℕ 0 (length e.value))

  unfoldable pub remove : Bytes → MemoryCache → MemoryCache
  unfolding on_evict
  remove key mc =
      let (evicted, cache') = lru.remove key mc.cache in
      record mc { cache = cache'; mem_used = on_evict evicted mc.mem_used }

  unfoldable pub get : ℕ → Bytes → MemoryCache → Option Bytes × MemoryCache
  unfolding remove
  get now key mc =
      let (found, cache') = lru.get key mc.cache in
      let mc' = record mc { cache = cache' } in
      elim found [
        | none ↦ (none, mc')
        | some e ↦ if ltb e.expires_at now then (none, remove key mc') else (some e.value, mc')
      ]

  -- The loop that makes room: `fuel` rounds at most, of which as many as there are entries are enough.
  unfoldable pub make_room : ℕ → ℕ → MemoryCache → MemoryCache
  unfolding on_evict
  make_room zero size mc = mc
  make_room (suc fuel) size mc =
      let (evicted, cache') = lru.remove_oldest mc.cache in
      let rest =
        make_room fuel size
          (record mc { cache = cache'; mem_used = on_evict evicted mc.mem_used }) in
      if ltb_ℤ (pos mc.max_memory) (mc.mem_used +ℤ pos size) && ltb 0 (lru.len mc.cache)
      then rest
      else mc

  -- The first step of `Set`: an entry that is there is removed.
  unfoldable pub drop_old : Bytes → MemoryCache → MemoryCache
  unfolding remove
  drop_old key mc = elim (lru.peek key mc.cache) [ none ↦ mc | some _ ↦ remove key mc ]

  unfoldable pub add : Bytes → MemoryCacheEntry → MemoryCache → MemoryCache
  unfolding on_evict
  add key e mc =
      let (evicted, cache') = lru.add key e mc.cache in
      record mc {
        cache = cache';
        mem_used = on_evict evicted (mc.mem_used +ℤ pos (length e.value));
      }

  unfoldable pub set : ℕ → Bytes → Bytes → ℕ → MemoryCache → MemoryCache
  unfolding drop_old make_room add
  set now key value ttl mc =
      let mc₁ = drop_old key mc in
      let mc₂ = make_room (lru.len mc₁.cache) (length value) mc₁ in
      add key (record { value = value; expires_at = now + ttl }) mc₂

  unfoldable pub delete : Bytes → MemoryCache → MemoryCache
  unfolding remove
  delete key mc = remove key mc

  unfoldable pub delete_keys : Bytes → List Bytes → MemoryCache → MemoryCache
  unfolding remove
  delete_keys prefix [] mc = mc
  delete_keys prefix (k ∷ ks) mc =
      delete_keys prefix ks (if has_prefix k prefix then remove k mc else mc)

  unfoldable pub delete_by_prefix : Bytes → MemoryCache → MemoryCache
  unfolding delete_keys
  delete_by_prefix prefix mc = delete_keys prefix (lru.keys mc.cache) mc

  unfoldable pub clear : MemoryCache → MemoryCache
  clear mc = record mc { cache = (lru.purge mc.cache).1; mem_used = pos 0 }
