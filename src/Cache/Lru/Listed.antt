-- ===== src/Cache/Lru/Listed.antt =====
-- An LRU cache as a list of entries: the interface can be met.
use mountain_king.Cache.Lru.{
  Lru, MemoryCacheEntry, Entries, lookup, delete, init, last, contains, touch, Distinct, to_list,
}
use mountain_king.Cache.Lru.Lists.{lookup-delete, lookup-delete_self, lookup-init_absent}
use mountain_king.Prelude.{
  ℕ, ◌<◌, ◌≡◌, refl, true, none, some, List, [], ◌∷◌, map, arith, Bytes, ltb, if◌then◌else◌, length,
  Option-cases, inl, inr,
}

pub Distinct-delete : (k : Bytes) (l : Entries) → Distinct l → Distinct (delete k l)
unfolding delete
Distinct-delete k [] d = d
Distinct-delete k ((j, e) ∷ l) (a, d) = ground (arith, Distinct-delete k l d, lookup-delete j k l)

pub Distinct-init : (l : Entries) → Distinct l → Distinct (init l)
unfolding init
Distinct-init [] d = d
Distinct-init (x ∷ []) d = tt
Distinct-init ((k, e) ∷ y ∷ l) (a, d) = (lookup-init_absent k (y ∷ l) a, Distinct-init (y ∷ l) d)

pub Distinct-touch : (k : Bytes) (l : Entries) → Distinct l → Distinct (touch k l)
unfolding touch
Distinct-touch k l d = ground (arith, Distinct-delete k l d, lookup-delete_self k l)

unfoldable pub keys_of : Entries → List Bytes
keys_of = map (λ x. x.0)

pub contains-keys_of :
    (k : Bytes) (e : MemoryCacheEntry) (l : Entries)
    → lookup k l ≡ some e
    → contains k (keys_of l) ≡ true
unfolding lookup contains keys_of
contains-keys_of k e [] h = cc
contains-keys_of k e ((j, x) ∷ l) h = ground (arith, contains-keys_of k e l)

-- A list with no key twice.
abbrev DistinctEntries : Type 0
DistinctEntries = (l : Entries) × Distinct l

-- The list behind a new entry: the oldest leaves if `max` are there.
unfoldable pub grown : ℕ → Bytes → MemoryCacheEntry → Entries → Entries
grown max k e l = if ltb (length l) max then (k, e) ∷ l else (k, e) ∷ init l

Distinct-grown :
    (max : ℕ) (k : Bytes) (e : MemoryCacheEntry) (l : Entries)
    → lookup k l ≡ none
    → Distinct l
    → Distinct (grown max k e l)
unfolding grown
Distinct-grown max k e l a d = ground (arith, Distinct-init l d, lookup-init_absent k l a)

unfoldable pub added : ℕ → Bytes → MemoryCacheEntry → Entries → Entries
unfolding grown
added max k e l = elim (lookup k l) [ none ↦ grown max k e l | some _ ↦ (k, e) ∷ delete k l ]

unfoldable pub pushed_out : ℕ → Bytes → Entries → List MemoryCacheEntry
pushed_out max k l = elim (lookup k l) [
  | none ↦ if ltb (length l) max then [] else last l
  | some _ ↦ []
]

pub Distinct-added :
    (max : ℕ) (k : Bytes) (e : MemoryCacheEntry) (l : Entries)
    → Distinct l
    → Distinct (added max k e l)
unfolding added
Distinct-added max k e l d = elim (Option-cases (lookup k l)) [
  | inl a ↦ rw (a, added) (Distinct-grown max k e l a d)
  | inr (x, a) ↦ rw (a, added) (lookup-delete_self k l, Distinct-delete k l d)
]

pub added_absent :
    (max : ℕ) (k : Bytes) (e : MemoryCacheEntry) (l : Entries)
    → lookup k l ≡ none
    → added max k e l ≡ (if ltb (length l) max then (k, e) ∷ l else (k, e) ∷ init l)
unfolding added
added_absent max k e l a = rw (a, added)

pub pushed_out_absent :
    (max : ℕ) (k : Bytes) (l : Entries)
    → lookup k l ≡ none
    → pushed_out max k l ≡ (if ltb (length l) max then [] else last l)
unfolding pushed_out
pushed_out_absent max k l a = rw (a, pushed_out)

abbrev pub listed : (max : ℕ) → 0 < max → Lru
listed max h = record {
  Store = DistinctEntries;
  entries = λ s. s.0;
  max_entries = max;
  get = λ k s. (lookup k s.0, (touch k s.0, Distinct-touch k s.0 s.1));
  peek = λ k s. lookup k s.0;
  add = λ k e s. (pushed_out max k s.0, (added max k e s.0, Distinct-added max k e s.0 s.1));
  remove = λ k s. (to_list (lookup k s.0), (delete k s.0, Distinct-delete k s.0 s.1));
  remove_oldest = λ s. (last s.0, (init s.0, Distinct-init s.0 s.1));
  keys = λ s. keys_of s.0;
  len = λ s. length s.0;
  purge = λ s. (map (λ x. x.1) s.0, ([], tt));
  distinct = λ s. s.1;
  max_entries-pos = h;
  get-value = λ k s. refl;
  get-entries = λ k s. refl;
  peek-value = λ k s. refl;
  add-entries = λ k e s a. added_absent max k e s.0 a;
  add-evicted = λ k e s a. pushed_out_absent max k s.0 a;
  remove-entries = λ k s. refl;
  remove-evicted = λ k s. refl;
  remove_oldest-entries = λ s. refl;
  remove_oldest-evicted = λ s. refl;
  keys-complete = λ k e s a. contains-keys_of k e s.0 a;
  len-entries = λ s. refl;
  purge-entries = λ s. refl;
}
