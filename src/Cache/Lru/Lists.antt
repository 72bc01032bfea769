-- ===== src/Cache/Lru/Lists.antt =====
-- The bytes that a list of entries holds, and what the operations on such lists make of them.
use mountain_king.Cache.Lru.{
  MemoryCacheEntry, Entries, lookup, delete, init, last, touch, Distinct, to_list,
}
use mountain_king.Prelude.{
  ℕ, ◌+◌, ◌-◌, ◌≡◌, refl, none, List, [], ◌∷◌, arith, Bytes, bytes_eq, bytes_eq_iff, if◌then◌else◌,
  length,
}

-- The lengths of the values.
unfoldable pub sizes : List MemoryCacheEntry → ℕ
sizes [] = 0
sizes (e ∷ es) = length e.value + sizes es

unfoldable pub total : Entries → ℕ
total [] = 0
total ((k, e) ∷ l) = length e.value + total l

pub delete_absent : (k : Bytes) (l : Entries) → lookup k l ≡ none → delete k l ≡ l
unfolding lookup delete
delete_absent k [] h = refl
delete_absent k ((j, e) ∷ l) h = ground (arith, delete_absent k l)

pub total-delete :
    (k : Bytes) (l : Entries)
    → Distinct l
    → total (delete k l) + sizes (to_list (lookup k l)) ≡ total l
unfolding lookup delete total sizes
total-delete k [] d = refl
total-delete k ((j, e) ∷ l) (absent, d) =
    ground (arith, bytes_eq_iff j k, total-delete k l d, delete_absent k l)

pub lookup-delete_self : (k : Bytes) (l : Entries) → lookup k (delete k l) ≡ none
unfolding lookup delete
lookup-delete_self k [] = refl
lookup-delete_self k ((j, e) ∷ l) = ground (arith, lookup-delete_self k l)

pub lookup-delete :
    (q k : Bytes) (l : Entries)
    → lookup q (delete k l) ≡ (if bytes_eq q k then none else lookup q l)
unfolding lookup delete
lookup-delete q k [] = ground arith
lookup-delete q k ((j, e) ∷ l) =
    ground (arith, bytes_eq_iff j k, bytes_eq_iff j q, bytes_eq_iff q k, lookup-delete q k l)

pub total-init : (l : Entries) → total (init l) + sizes (last l) ≡ total l
unfolding total init last sizes
total-init [] = refl
total-init (x ∷ []) = omega arith
total-init (x ∷ y ∷ l) = omega (arith, total-init (y ∷ l))

pub length-init : (l : Entries) → length (init l) ≡ length l - 1
unfolding init
length-init [] = refl
length-init (x ∷ []) = omega arith
length-init (x ∷ y ∷ l) = omega (arith, length-init (y ∷ l))

pub lookup-init_absent : (k : Bytes) (l : Entries) → lookup k l ≡ none → lookup k (init l) ≡ none
unfolding lookup init
lookup-init_absent k [] h = refl
lookup-init_absent k (x ∷ []) h = refl
lookup-init_absent k (x ∷ y ∷ l) h = ground (arith, lookup-init_absent k (y ∷ l))

pub total-touch : (k : Bytes) (l : Entries) → Distinct l → total (touch k l) ≡ total l
unfolding touch total sizes
total-touch k l d = ground (arith, total-delete k l d)

pub lookup-touch : (q k : Bytes) (l : Entries) → lookup q (touch k l) ≡ lookup q l
unfolding touch lookup
lookup-touch q k l = ground (arith, lookup-delete q k l, bytes_eq_iff k q, bytes_eq_iff q k)
