-- ===== src/Cache/Memory/Usage.antt =====
-- The counter of used memory, and its limit.
use mountain_king.Cache.Lru.{Lru, Entries}
use mountain_king.Cache.Lru.Lists.{total}
use mountain_king.Cache.Memory.{
  MemoryCache, get, drop_old, set, delete, delete_keys, delete_by_prefix, clear,
}
use mountain_king.Prelude.{
  ℕ, ◌≤◌, ◌≡◌, sym, ap, ◌∙◌, Bool, true, false, List, [], ◌∷◌, arith, Bytes, has_prefix,
  if◌then◌else◌, length,
}
use mountain_king.Prelude.Int.{pos}
use mountain_king.Cache.Memory.Room.{
  IsAccounted, remove-IsAccounted, get-IsAccounted, add-IsAccounted, add_bound,
  make_room-max_memory, drop_old-HasKey, roomy, roomy-HasRoom,
}

module _ (lru : Lru) where
  set-IsAccounted :
      (now : ℕ) (key value : Bytes) (ttl : ℕ) (mc : MemoryCache lru)
      → IsAccounted lru mc
      → IsAccounted lru (set lru now key value ttl mc)
  unfolding set roomy
  set-IsAccounted now key value ttl mc h =
      add-IsAccounted lru key _ _ (roomy-HasRoom lru key value mc h)

  -- After `Set` the cached values fit in the memory limit, if the new value does by itself.
  pub total-set :
      (now : ℕ) (key value : Bytes) (ttl : ℕ) (mc : MemoryCache lru)
      → IsAccounted lru mc
      → length value ≤ mc.max_memory
      → total (lru.entries (set lru now key value ttl mc).cache) ≤ mc.max_memory
  unfolding set roomy
  total-set now key value ttl mc h fits =
      let same : (roomy lru key value mc).max_memory ≡ mc.max_memory =
        make_room-max_memory lru _ (length value) (drop_old lru key mc)
        ∙ (drop_old-HasKey lru key mc h).2 in
      omega (
        arith,
        add_bound lru key _ (roomy lru key value mc) (roomy-HasRoom lru key value mc h)
            (omega arith),
      )

  either-IsAccounted :
      (b : Bool) (x y : MemoryCache lru)
      → IsAccounted lru x
      → IsAccounted lru y
      → IsAccounted lru (if b then x else y)
  either-IsAccounted true x y p q = p
  either-IsAccounted false x y p q = q

  delete_keys-IsAccounted :
      (prefix : Bytes) (ks : List Bytes) (mc : MemoryCache lru)
      → IsAccounted lru mc
      → IsAccounted lru (delete_keys lru prefix ks mc)
  unfolding delete_keys
  delete_keys-IsAccounted prefix [] mc h = h
  delete_keys-IsAccounted prefix (k ∷ ks) mc h =
      delete_keys-IsAccounted prefix ks _
        (either-IsAccounted (has_prefix k prefix) _ _ (remove-IsAccounted lru k mc h) h)

  -- The operations of a cache, at the moments at which they read the clock.
  pub data Operation : Type 0 where
    get_at : ℕ → Bytes → Operation
    set_at : ℕ → Bytes → Bytes → ℕ → Operation
    delete_key : Bytes → Operation
    delete_prefix : Bytes → Operation
    clear_all : Operation

  pub apply : Operation → MemoryCache lru → MemoryCache lru
  apply (get_at now k) mc = (get lru now k mc).1
  apply (set_at now k v ttl) mc = set lru now k v ttl mc
  apply (delete_key k) mc = delete lru k mc
  apply (delete_prefix p) mc = delete_by_prefix lru p mc
  apply clear_all mc = clear lru mc

  -- Every operation keeps the counter of used memory at the number of bytes in the cached values.
  pub apply-IsAccounted :
      (op : Operation) (mc : MemoryCache lru) → IsAccounted lru mc → IsAccounted lru (apply op mc)
  unfolding apply delete delete_by_prefix clear total
  apply-IsAccounted (get_at now k) mc h = get-IsAccounted lru now k mc h
  apply-IsAccounted (set_at now k v ttl) mc h = set-IsAccounted now k v ttl mc h
  apply-IsAccounted (delete_key k) mc h = remove-IsAccounted lru k mc h
  apply-IsAccounted (delete_prefix p) mc h = delete_keys-IsAccounted p (lru.keys mc.cache) mc h
  apply-IsAccounted clear_all mc h =
      ap (λ (l : Entries). pos (total l)) (sym (lru.purge-entries mc.cache))
