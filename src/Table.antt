-- ===== src/Table.antt =====
-- Maps from texts, as the lists of their entries.
use mountain_king.Prelude.{
  ◌≡◌, Option, none, some, List, [], ◌∷◌, Bytes, arith, bytes_eq, bytes_eq_iff, if◌then◌else◌,
}

-- A map from texts.
abbrev pub Table : Type 0 → Type 0
Table A = List (Bytes × A)

module _ {A : Type 0} where
  unfoldable pub find : Bytes → Table A → Option A
  find key [] = none
  find key ((k, a) ∷ t) = let rest = find key t in if bytes_eq k key then some a else rest

  unfoldable pub put : Bytes → A → Table A → Table A
  put key a [] = (key, a) ∷ []
  put key a ((k, b) ∷ t) =
      let rest = put key a t in if bytes_eq k key then (key, a) ∷ t else (k, b) ∷ rest

pub find-put :
    {A : Type 0} (q key : Bytes) (a : A) (t : Table A)
    → find q (put key a t) ≡ (if bytes_eq key q then some a else find q t)
unfolding find put
find-put q key a [] = ground arith
find-put q key a ((k, b) ∷ t) =
    ground (arith, find-put q key a t, bytes_eq_iff k key, bytes_eq_iff key q, bytes_eq_iff k q)
