-- ===== src/Cache/Lru.antt =====
-- The LRU cache of github.com/hashicorp/golang-lru/v2 as internal/cache/memory.go uses it: its
-- operations, and what its documentation says of them. A removal hands the removed entries to the
-- eviction callback; here it returns them.
pub mod Lists
pub mod Listed
use mountain_king.Prelude.{
  ℕ, zero, suc, ◌+◌, ◌≤◌, ◌<◌, ◌≡◌, refl, Bool, true, false, ◌||◌, Option, none, some, List, [],
  ◌∷◌, Bytes, bytes_eq, ltb, if◌then◌else◌, length,
}

pub record MemoryCacheEntry : Type 0 where
  pub value : Bytes
  pub expires_at : ℕ

-- Keys with their entries, the most recently used first.
abbrev pub Entries : Type 0
Entries = List (Bytes × MemoryCacheEntry)

unfoldable pub lookup : Bytes → Entries → Option MemoryCacheEntry
lookup k [] = none
lookup k ((j, e) ∷ l) = if bytes_eq j k then some e else lookup k l

unfoldable pub delete : Bytes → Entries → Entries
delete k [] = []
delete k ((j, e) ∷ l) = if bytes_eq j k then delete k l else (j, e) ∷ delete k l

-- All but the last, and the last.
unfoldable pub init : Entries → Entries
init [] = []
init (x ∷ []) = []
init (x ∷ y ∷ l) = x ∷ init (y ∷ l)

unfoldable pub last : Entries → List MemoryCacheEntry
last [] = []
last ((k, e) ∷ []) = e ∷ []
last (x ∷ y ∷ l) = last (y ∷ l)

unfoldable pub contains : Bytes → List Bytes → Bool
contains k [] = false
contains k (j ∷ js) = bytes_eq j k || contains k js

abbrev pub to_list : Option MemoryCacheEntry → List MemoryCacheEntry
to_list none = []
to_list (some e) = e ∷ []

-- No key stands twice.
abbrev pub Distinct : Entries → Type 0
Distinct [] = Unit
Distinct ((k, e) ∷ l) = (lookup k l ≡ none) × Distinct l

-- The entry of a key moved to the front.
unfoldable pub touch : Bytes → Entries → Entries
touch k l = elim (lookup k l) [ none ↦ l | some e ↦ (k, e) ∷ delete k l ]

pub record Lru : Type 1 where
  pub Store : Type 0
  pub entries : Store → Entries
  pub max_entries : ℕ
  pub get : Bytes → Store → Option MemoryCacheEntry × Store
  pub peek : Bytes → Store → Option MemoryCacheEntry
  pub add : Bytes → MemoryCacheEntry → Store → List MemoryCacheEntry × Store
  pub remove : Bytes → Store → List MemoryCacheEntry × Store
  pub remove_oldest : Store → List MemoryCacheEntry × Store
  pub keys : Store → List Bytes
  pub len : Store → ℕ
  pub purge : Store → List MemoryCacheEntry × Store
  pub distinct : (s : Store) → Distinct (entries s)
  pub max_entries-pos : 0 < max_entries
  pub get-value : (k : Bytes) (s : Store) → (get k s).0 ≡ lookup k (entries s)
  pub get-entries : (k : Bytes) (s : Store) → entries (get k s).1 ≡ touch k (entries s)
  pub peek-value : (k : Bytes) (s : Store) → peek k s ≡ lookup k (entries s)
  -- A new key comes to the front, and the oldest entry leaves a full cache.
  pub add-entries :
      (k : Bytes) (e : MemoryCacheEntry) (s : Store)
      → lookup k (entries s) ≡ none
      → entries (add k e s).1 ≡ (
          if ltb (length (entries s)) max_entries
          then (k, e) ∷ entries s
          else (k, e) ∷ init (entries s))
  pub add-evicted :
      (k : Bytes) (e : MemoryCacheEntry) (s : Store)
      → lookup k (entries s) ≡ none
      → (add k e s).0 ≡ (if ltb (length (entries s)) max_entries then [] else last (entries s))
  pub remove-entries : (k : Bytes) (s : Store) → entries (remove k s).1 ≡ delete k (entries s)
  pub remove-evicted : (k : Bytes) (s : Store) → (remove k s).0 ≡ to_list (lookup k (entries s))
  pub remove_oldest-entries : (s : Store) → entries (remove_oldest s).1 ≡ init (entries s)
  pub remove_oldest-evicted : (s : Store) → (remove_oldest s).0 ≡ last (entries s)
  pub keys-complete :
      (k : Bytes) (e : MemoryCacheEntry) (s : Store)
      → lookup k (entries s) ≡ some e
      → contains k (keys s) ≡ true
  pub len-entries : (s : Store) → len s ≡ length (entries s)
  pub purge-entries : (s : Store) → entries (purge s).1 ≡ []
