-- ===== src/Server/Chain/Guessing.antt =====
-- Guessing credentials: what a sequence of requests that all fail to authenticate changes.
use mountain_king.Server.Chain.{Deployment, use_auth, behind_auth, serve_http, serve_all}
use mountain_king.Errors.{ApiError, err}
use mountain_king.Http.{Request, World, Handler}
use mountain_king.Middleware.Auth.{
  Authenticator, auth_middleware, authenticated, is_public_endpoint,
}
use mountain_king.Middleware.Guards.{CorsConfig, cors, csrf_protection, max_concurrent_requests}
use mountain_king.Prelude.{
  ℕ, subst, sym, some, List, [], ◌∷◌, All, ◌∙◌, ◌≡◌, ◌≢◌, refl, Bool, false, Bytes, arith, ◌+◌,
}
use mountain_king.Prelude.Int.{ℤ, pos, negsuc}

-- A request for what is not public, in which the authenticator finds no identity.
pub record IsGuess (auth : Authenticator) (r : Request) : Type 0 where
  pub private_path : is_public_endpoint r.path ≡ false
  pub error : ApiError
  pub failed : auth r ≡ err error
  pub status : error.status_code ≡ 401

module _ {L : Type 0} where
  -- The handler changes nothing, and does not answer that there were too many requests.
  abbrev pub Ignores : Handler L → Request → Type 0
  Ignores next r = (w : World L) → ((next r w).1 ≡ w) × ((next r w).0.status ≢ 429)

  auth_middleware-Ignores :
      (auth : Authenticator) (next : Handler L) (r : Request) (e : ApiError)
      → is_public_endpoint r.path ≡ false
      → auth r ≡ err e
      → e.status_code ≡ 401
      → Ignores (auth_middleware auth next) r
  unfolding auth_middleware authenticated
  auth_middleware-Ignores auth next r e private failed status w =
      rw private (rw failed (refl, ground arith))

  csrf_protection-Ignores :
      (allow_get_queries : Bool) (mode : Bytes) (next : Handler L) (r : Request)
      → Ignores next r
      → Ignores (csrf_protection allow_get_queries mode next) r
  unfolding csrf_protection
  csrf_protection-Ignores allow_get_queries mode next r k w = let passed = k w in ground arith

  cors-Ignores :
      (cfg : CorsConfig) (next : Handler L) (r : Request)
      → Ignores next r
      → Ignores (cors cfg next) r
  unfolding cors
  cors-Ignores cfg next r k w = let passed = k w in ground arith

  max_concurrent_requests-Ignores :
      (n : ℤ) (next : Handler L) (r : Request)
      → Ignores next r
      → Ignores (max_concurrent_requests n next) r
  unfolding max_concurrent_requests
  max_concurrent_requests-Ignores (negsuc n) next r k w = k w
  max_concurrent_requests-Ignores (pos n) next r k w =
      let at_once = k w in
      let counted = k (record w { in_flight = w.in_flight + 1 }) in ground arith

  serve_http-Ignores :
      (d : Deployment L) (auth : Authenticator) (now : ℕ) (r : Request)
      → d.authenticator ≡ some auth
      → IsGuess auth r
      → Ignores (serve_http d now) r
  unfolding serve_http
  serve_http-Ignores d auth now r e g =
      let authed = use_auth d.authenticator (behind_auth d now) in
      let guarded = csrf_protection d.allow_get_queries d.mode authed in
      let refused =
        subst (λ o. Ignores (use_auth o (behind_auth d now)) r) (sym e)
          (auth_middleware-Ignores auth (behind_auth d now) r g.error g.private_path g.failed
            g.status) in
      max_concurrent_requests-Ignores d.max_concurrent (cors d.cors_config guarded) r (
        cors-Ignores d.cors_config guarded r
          (csrf_protection-Ignores d.allow_get_queries d.mode authed r refused))

-- However many requests with wrong credentials come, from whatever addresses, they change neither the
-- failures that are counted, nor the state of the rate limiter, nor anything else, and none of them
-- is answered with the status 429.
pub serve_all-IsGuess :
    {L : Type 0} (d : Deployment L) (auth : Authenticator) (rs : List (ℕ × Request)) (w : World L)
    → d.authenticator ≡ some auth
    → All (λ g. IsGuess auth g.1) rs
    → ((serve_all d rs w).1 ≡ w) × All (λ response. response.status ≢ 429) (serve_all d rs w).0
unfolding serve_all
serve_all-IsGuess d auth [] w e gs = (refl, tt)
serve_all-IsGuess d auth ((now, r) ∷ rs) w e (g, gs) =
    let (same, status) = serve_http-Ignores d auth now r e g w in
    let (same', statuses) = serve_all-IsGuess d auth rs (serve_http d now r w).1 e gs in
    (same' ∙ same, (status, statuses))
