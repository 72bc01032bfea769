-- ===== src/Middleware/Authz.antt =====
-- internal/middleware/authz.go: which identities may do what.
pub mod Permits
mod Tests
use mountain_king.Errors.{Result, ok, err, ◌>>=◌, ◌>>◌, err_auth_insufficient_permission}
use mountain_king.Prelude.{
  ℕ, Bool, true, false, not, ◌&&◌, ◌||◌, Option, none, some, List, [], ◌∷◌, Bytes, bytes_eq,
  if◌then◌else◌,
}

pub record AuthIdentity : Type 0 where
  pub subject : Bytes
  pub method : Bytes
  pub datasources : List Bytes
  pub operations : List Bytes

unfoldable pub contains : List Bytes → Bytes → Bool
contains [] s = false
contains (v ∷ vs) s = bytes_eq v s || contains vs s

-- `len(list) > 0 && s != ""`, and then `!contains(list, s)`.
unfoldable pub denies : List Bytes → Bytes → Bool
unfolding contains
denies [] s = false
denies (v ∷ vs) s = not (bytes_eq s []) && not (contains (v ∷ vs) s)

abbrev pub denied : Result (Unit {0})
denied = err (record { code = err_auth_insufficient_permission; status_code = 403 })

unfoldable pub authorize : Option AuthIdentity → Bytes → Bytes → Result (Unit {0})
unfolding denies
authorize none datasource operation = denied
authorize (some identity) datasource operation =
    if denies identity.datasources datasource
    then denied
    else if denies identity.operations operation
    then denied
    else ok tt
