-- ===== src/Cache/Memory/Room.antt =====
-- The steps of an operation keep the counter right, and the loop of `Set` makes room.
use mountain_king.Cache.Lru.{Lru, MemoryCacheEntry, Entries, lookup}
use mountain_king.Cache.Lru.Lists.{
  sizes, total, total-delete, lookup-delete_self, total-init, length-init, lookup-init_absent,
  total-touch,
}
use mountain_king.Cache.Memory.{MemoryCache, on_evict, remove, get, make_room, drop_old, add}
use mountain_king.Prelude.{
  ℕ, zero, suc, ◌+◌, ◌≤◌, ◌≡◌, refl, ap, ◌∙◌, Bool, false, ◌&&◌, none, List, [], ◌∷◌, arith, Bytes,
  ltb, length, Bool-cases, ◌⊎◌, inl, inr,
}
use mountain_king.Prelude.Int.{ℤ, pos, ◌+ℤ◌, sub_ℕ, ltb_ℤ}

pos-add : (m n : ℕ) → pos m +ℤ pos n ≡ pos (m + n)
unfolding ◌+ℤ◌
pos-add m n = ground arith

pos-sub : (m n : ℕ) → pos (m + n) +ℤ sub_ℕ 0 n ≡ pos m
unfolding ◌+ℤ◌
pos-sub m n = ground arith

nil_of_length : (l : Entries) → length l ≤ 0 → l ≡ []
nil_of_length [] h = refl
nil_of_length (x ∷ l) h = absurd (omega arith)

module _ (lru : Lru) where
  -- The counter is the number of bytes in the cached values.
  abbrev pub IsAccounted : MemoryCache lru → Type 0
  IsAccounted mc = mc.mem_used ≡ pos (total (lru.entries mc.cache))

  on_evict_all : (es : List MemoryCacheEntry) (n : ℕ) → on_evict lru es (pos (n + sizes es)) ≡ pos n
  unfolding on_evict sizes
  on_evict_all [] n = ap pos (omega arith)
  on_evict_all (e ∷ es) n =
      ap (λ z. on_evict lru es (pos z +ℤ sub_ℕ 0 (length e.value))) (omega arith)
      ∙ ap (on_evict lru es) (pos-sub (n + sizes es) (length e.value))
      ∙ on_evict_all es n

  on_evict-pos :
      (es : List MemoryCacheEntry) {used : ℤ} (m n : ℕ)
      → used ≡ pos m
      → m ≡ n + sizes es
      → on_evict lru es used ≡ pos n
  on_evict-pos es m n e h = ap (on_evict lru es) (e ∙ ap pos h) ∙ on_evict_all es n

  pub remove-IsAccounted :
      (k : Bytes) (mc : MemoryCache lru) → IsAccounted mc → IsAccounted (remove lru k mc)
  unfolding remove
  remove-IsAccounted k mc h =
      let l = lru.entries mc.cache in
      on_evict-pos (lru.remove k mc.cache).0 (total l) _ h (
        rw (lru.remove-entries k mc.cache, lru.remove-evicted k mc.cache)
          (omega (arith, total-delete k l (lru.distinct mc.cache))))

  pub get-IsAccounted :
      (now : ℕ) (k : Bytes) (mc : MemoryCache lru)
      → IsAccounted mc
      → IsAccounted (get lru now k mc).1
  unfolding get
  get-IsAccounted now k mc h =
      let (found, cache') = lru.get k mc.cache in
      let mc' : MemoryCache lru = record mc { cache = (lru.get k mc.cache).1 } in
      let e : total (lru.entries (lru.get k mc.cache).1) ≡ total (lru.entries mc.cache) =
        ap total (lru.get-entries k mc.cache)
        ∙ total-touch k (lru.entries mc.cache) (lru.distinct mc.cache) in
      ground (arith, remove-IsAccounted k mc')

  evict_oldest-IsAccounted :
      (mc : MemoryCache lru)
      → IsAccounted mc
      → on_evict lru (lru.remove_oldest mc.cache).0 mc.mem_used
        ≡ pos (total (lru.entries (lru.remove_oldest mc.cache).1))
  evict_oldest-IsAccounted mc h =
      on_evict-pos (lru.remove_oldest mc.cache).0 (total (lru.entries mc.cache)) _ h (
        rw (lru.remove_oldest-entries mc.cache, lru.remove_oldest-evicted mc.cache)
          (omega (arith, total-init (lru.entries mc.cache))))

  -- The test of the loop that makes room.
  abbrev is_over : ℕ → MemoryCache lru → Bool
  is_over size mc = ltb_ℤ (pos mc.max_memory) (mc.mem_used +ℤ pos size) && ltb 0 (lru.len mc.cache)

  room_of :
      (size : ℕ) (mc : MemoryCache lru)
      → IsAccounted mc
      → is_over size mc ≡ false
      → (total (lru.entries mc.cache) + size ≤ mc.max_memory) ⊎ (lru.entries mc.cache ≡ [])
  room_of size mc h e =
      let l = lru.entries mc.cache in
      ground (arith, pos-add (total l) size, lru.len-entries mc.cache, nil_of_length l)

  -- What the loop that makes room reaches.
  pub record HasRoom (size : ℕ) (key : Bytes) (mc : MemoryCache lru) : Type 0 where
    pub accounted : IsAccounted mc
    pub absent : lookup key (lru.entries mc.cache) ≡ none
    pub room : (total (lru.entries mc.cache) + size ≤ mc.max_memory) ⊎ (lru.entries mc.cache ≡ [])

  make_room-HasRoom :
      (fuel size : ℕ) (key : Bytes) (mc : MemoryCache lru)
      → IsAccounted mc
      → lookup key (lru.entries mc.cache) ≡ none
      → length (lru.entries mc.cache) ≤ fuel
      → HasRoom size key (make_room lru fuel size mc)
  unfolding make_room
  make_room-HasRoom zero size key mc h a f = record {
    accounted = h;
    absent = a;
    room = inr (nil_of_length (lru.entries mc.cache) f);
  }
  make_room-HasRoom (suc fuel) size key mc h a f =
      let l = lru.entries mc.cache in
      let mc' : MemoryCache lru = record mc {
        cache = (lru.remove_oldest mc.cache).1;
        mem_used = on_evict lru (lru.remove_oldest mc.cache).0 mc.mem_used;
      } in
      let absent' : lookup key (lru.entries (lru.remove_oldest mc.cache).1) ≡ none =
        ap (lookup key) (lru.remove_oldest-entries mc.cache) ∙ lookup-init_absent key l a in
      let fits : length (lru.entries (lru.remove_oldest mc.cache).1) ≤ fuel =
        omega (arith, ap (length {0}) (lru.remove_oldest-entries mc.cache), length-init l) in
      elim (Bool-cases (is_over size mc)) [
        | inl e ↦
            rw e (make_room-HasRoom fuel size key mc' (evict_oldest-IsAccounted mc h) absent' fits)
        | inr e ↦ rw e (record { accounted = h; absent = a; room = room_of size mc h e })
      ]

  total-add :
      (key : Bytes) (e : MemoryCacheEntry) (s : lru.Store)
      → lookup key (lru.entries s) ≡ none
      → total (lru.entries s) + length e.value
        ≡ total (lru.entries (lru.add key e s).1) + sizes (lru.add key e s).0
  unfolding total sizes
  total-add key e s a =
      ground
        (arith, lru.add-entries key e s a, lru.add-evicted key e s a, total-init (lru.entries s))

  pub add-IsAccounted :
      (key : Bytes) (e : MemoryCacheEntry) (mc : MemoryCache lru)
      → HasRoom (length e.value) key mc
      → IsAccounted (add lru key e mc)
  unfolding add
  add-IsAccounted key e mc r =
      let l = lru.entries mc.cache in
      on_evict-pos (lru.add key e mc.cache).0 (total l + length e.value) _
        (ap (λ z. z +ℤ pos (length e.value)) r.accounted ∙ pos-add (total l) (length e.value))
        (total-add key e mc.cache r.absent)

  pub add_bound :
      (key : Bytes) (e : MemoryCacheEntry) (mc : MemoryCache lru)
      → HasRoom (length e.value) key mc
      → length e.value ≤ mc.max_memory
      → total (lru.entries (add lru key e mc).cache) ≤ mc.max_memory
  unfolding add total
  add_bound key e mc r fits = ground (arith, total-add key e mc.cache r.absent)

  pub drop_old-HasKey :
      (key : Bytes) (mc : MemoryCache lru)
      → IsAccounted mc
      → IsAccounted (drop_old lru key mc)
        × (lookup key (lru.entries (drop_old lru key mc).cache) ≡ none)
        × ((drop_old lru key mc).max_memory ≡ mc.max_memory)
  unfolding drop_old remove
  drop_old-HasKey key mc h = ground (
    arith,
    remove-IsAccounted key mc h,
    lru.peek-value key mc.cache,
    ap (lookup key) (lru.remove-entries key mc.cache),
    lookup-delete_self key (lru.entries mc.cache),
  )

  pub make_room-max_memory :
      (fuel size : ℕ) (mc : MemoryCache lru)
      → (make_room lru fuel size mc).max_memory ≡ mc.max_memory
  unfolding make_room
  make_room-max_memory zero size mc = refl
  make_room-max_memory (suc fuel) size mc = ground (
    arith,
    make_room-max_memory fuel size (record mc {
      cache = (lru.remove_oldest mc.cache).1;
      mem_used = on_evict lru (lru.remove_oldest mc.cache).0 mc.mem_used;
    }),
  )

  -- The cache behind the loop of `Set`.
  unfoldable pub roomy : (key value : Bytes) (mc : MemoryCache lru) → MemoryCache lru
  roomy key value mc =
      make_room lru (lru.len (drop_old lru key mc).cache) (length value) (drop_old lru key mc)

  pub roomy-HasRoom :
      (key value : Bytes) (mc : MemoryCache lru)
      → IsAccounted mc
      → HasRoom (length value) key (roomy key value mc)
  unfolding roomy
  roomy-HasRoom key value mc h =
      let (h', a, _) = drop_old-HasKey key mc h in
      make_room-HasRoom _ (length value) key (drop_old lru key mc) h' a
        (omega (arith, lru.len-entries (drop_old lru key mc).cache))
