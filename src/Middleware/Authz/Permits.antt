-- ===== src/Middleware/Authz/Permits.antt =====
-- The authorizer against what its lists mean.
use mountain_king.Errors.{ok}
use mountain_king.Middleware.Authz.{AuthIdentity, contains, denies, denied, authorize}
use mountain_king.Prelude.{
  ◌≡◌, ◌↔◌, ◌⊎◌, true, false, some, List, [], ◌∷◌, arith, Bytes, bytes_eq_iff,
}

abbrev pub IsElem : Bytes → List Bytes → Type 0
IsElem s [] = ⊥
IsElem s (v ∷ vs) = (v ≡ s) ⊎ IsElem s vs

-- An empty list grants everything, and an empty name asks for nothing.
abbrev pub Grants : List Bytes → Bytes → Type 0
Grants l s = (l ≡ []) ⊎ (s ≡ []) ⊎ IsElem s l

pub contains_iff : (l : List Bytes) (s : Bytes) → (contains l s ≡ true) ↔ IsElem s l
unfolding contains
contains_iff [] s = ground arith
contains_iff (v ∷ vs) s = ground (arith, bytes_eq_iff v s, contains_iff vs s)

denies_iff : (l : List Bytes) (s : Bytes) → (denies l s ≡ false) ↔ Grants l s
unfolding denies
denies_iff [] s = ground arith
denies_iff (v ∷ vs) s = ground (arith, bytes_eq_iff s [], contains_iff (v ∷ vs) s)

-- An identity may do an operation on a data source exactly when both its lists grant it; it is
-- refused with the status 403 otherwise.
pub authorize-Grants :
    (identity : AuthIdentity) (datasource operation : Bytes)
    → ((authorize (some identity) datasource operation ≡ ok tt)
        ↔ (Grants identity.datasources datasource × Grants identity.operations operation))
      × ((authorize (some identity) datasource operation ≡ ok tt)
          ⊎ (authorize (some identity) datasource operation ≡ denied))
unfolding authorize
authorize-Grants identity datasource operation =
    ground
      (arith, denies_iff identity.datasources datasource, denies_iff identity.operations operation)
