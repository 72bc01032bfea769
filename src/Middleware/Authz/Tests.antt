-- ===== src/Middleware/Authz/Tests.antt =====
-- One identity.
use mountain_king.Middleware.Authz.{AuthIdentity, authorize, denied}
use mountain_king.Prelude.{◌≡◌, refl, some, [], ◌∷◌, codes, bytes_eq}

abbrev reader : AuthIdentity
reader = record {
  subject = codes "r";
  method = codes "jwt";
  datasources = codes "prom" ∷ [];
  operations = codes "query" ∷ [];
}

refuses_write : authorize (some reader) (codes "prom") (codes "mutation") ≡ denied
unfolding authorize bytes_eq
refuses_write = refl
