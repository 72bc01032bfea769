-- ===== src/Server/Chain.antt =====
-- cmd/server/main.go: the middleware in its order, and the routes behind it. RequestID, BodyLimit and
-- Compression, which change neither the request nor who is let through, are left out.
mod Layers
mod Entered
mod Guessing
mod Tests
use mountain_king.Errors.{err_auth_brute_force_blocked}
use mountain_king.Http.{Request, Response, World, Handler, refusal}
use mountain_king.Middleware.Auth.{Authenticator, auth_middleware}
use mountain_king.Middleware.AuthFailureLimiter.{check}
use mountain_king.Middleware.Guards.{
  CorsConfig, RateLimiter, cors, csrf_protection, max_concurrent_requests, rate_limit_middleware,
}
use mountain_king.Prelude.{
  ℕ, Bool, true, false, not, ◌&&◌, ◌||◌, Option, none, some, List, [], ◌∷◌, Bytes, codes, bytes_eq,
  if◌then◌else◌,
}
use mountain_king.Prelude.Int.{ℤ}

-- What the server is started with: `authenticator` and `failure_limited` tell which of the two is
-- not nil; `respond` is the handler that gqlgen makes.
pub record Deployment (L : Type 0) : Type 0 where
  pub max_concurrent : ℤ
  pub cors_config : CorsConfig
  pub allow_get_queries : Bool
  pub mode : Bytes
  pub authenticator : Option Authenticator
  pub failure_limited : Bool
  pub allow : RateLimiter L
  pub strip_port : Bytes → Bytes
  pub respond : Request → Response

abbrev not_found : Response
not_found = record { status = 404; code = none; headers = [] }

-- The routes of GraphQL: GET is one if it is allowed, or in development.
unfoldable pub is_graphql_route : {L : Type 0} → Deployment L → Request → Bool
unfolding bytes_eq
is_graphql_route d r =
    bytes_eq r.path (codes "/graphql")
    && (bytes_eq r.method (codes "POST")
        || ((d.allow_get_queries || bytes_eq d.mode (codes "development"))
            && bytes_eq r.method (codes "GET")))

-- The router: whatever is no request of GraphQL does not reach a resolver.
unfoldable pub router : {L : Type 0} → Deployment L → Handler L
unfolding is_graphql_route
router d r w =
    if is_graphql_route d r
    then (d.respond r, record w { served = r ∷ w.served })
    else (not_found, w)

unfoldable pub auth_failure_limiter_middleware : {L : Type 0} → ℕ → Handler L → Handler L
unfolding check
auth_failure_limiter_middleware now next r w =
    if not (check w.failures now r.client_ip)
    then (refusal 429 err_auth_brute_force_blocked, w)
    else next r w

-- `router.Use` under an `if`.
abbrev pub use_if : {L : Type 0} → Bool → (Handler L → Handler L) → Handler L → Handler L
use_if true layer next = layer next
use_if false layer next = next

abbrev pub use_auth : {L : Type 0} → Option Authenticator → Handler L → Handler L
use_auth none next = next
use_auth (some auth) next = auth_middleware auth next

unfoldable pub behind_auth : {L : Type 0} → Deployment L → ℕ → Handler L
unfolding auth_failure_limiter_middleware rate_limit_middleware router
behind_auth d now =
    use_if d.failure_limited (auth_failure_limiter_middleware now)
      (rate_limit_middleware d.allow d.strip_port d.failure_limited (router d))

-- The whole server, at the moment `now`.
unfoldable pub serve_http : {L : Type 0} → Deployment L → ℕ → Handler L
unfolding max_concurrent_requests cors csrf_protection behind_auth
serve_http d now = max_concurrent_requests d.max_concurrent (
    cors d.cors_config
      (csrf_protection d.allow_get_queries d.mode (use_auth d.authenticator (behind_auth d now))))

-- Requests one after the other, each with its moment: the responses and the last world.
unfoldable pub serve_all :
    {L : Type 0} → Deployment L → List (ℕ × Request) → World L → List Response × World L
serve_all d [] w = ([], w)
serve_all d ((now, r) ∷ rs) w =
    let (response, w') = serve_http d now r w in
    let (responses, last) = serve_all d rs w' in (response ∷ responses, last)
