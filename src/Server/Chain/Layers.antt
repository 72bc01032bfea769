-- ===== src/Server/Chain/Layers.antt =====
-- What each layer of the middleware keeps: a property of the requests that were served holds behind
-- the layer, if it holds of those before it, and behind the next handler.
use mountain_king.Errors.{ok, Result-cases}
use mountain_king.Http.{Request, World, Handler}
use mountain_king.Middleware.Auth.{
  Authenticator, auth_middleware, authenticated, is_public_endpoint,
}
use mountain_king.Middleware.Authz.{AuthIdentity}
use mountain_king.Middleware.Guards.{
  CorsConfig, RateLimitResult, RateLimiter, cors, csrf_protection, is_graphql_path,
  max_concurrent_requests, limited, rate_limit_middleware,
}
use mountain_king.Prelude.{
  ◌&&◌, Bool-cases, ℕ, ◌≡◌, sym, subst, ◌⊎◌, inl, inr, Bool, Bool-cases, true, false, not, Option,
  none, some, List, Bytes, codes, bytes_eq, arith, ◌+◌,
}
use mountain_king.Prelude.Int.{ℤ, pos, negsuc}
use mountain_king.Prometheus.Validator.{contains_text}
use mountain_king.Server.Chain.{auth_failure_limiter_middleware}

-- The content type that a request must have to pass the protection against forged requests.
abbrev pub IsJson : Request → Type 0
IsJson r =
    bytes_eq r.method (codes "POST") ≡ true
    → contains_text (r.header (codes "Content-Type")) (codes "application/json") ≡ true

abbrev is_forged : Request → Bool
is_forged r =
    bytes_eq r.method (codes "POST")
    && not (contains_text (r.header (codes "Content-Type")) (codes "application/json"))

module _ {L : Type 0} (P : List Request → Type 0) (s : List Request) where
  -- The handler `next`, on `r` and any world with these requests.
  abbrev pub Keeps : Handler L → Request → Type 0
  Keeps next r = (w : World L) → w.served ≡ s → P (next r w).1.served

  refused : (w : World L) → P s → w.served ≡ s → P w.served
  refused w p e = subst P (sym e) p

  pub max_concurrent_requests-Keeps :
      (n : ℤ) (next : Handler L) (r : Request)
      → P s
      → Keeps next r
      → Keeps (max_concurrent_requests n next) r
  unfolding max_concurrent_requests
  max_concurrent_requests-Keeps (negsuc n) next r p k w e = k w e
  max_concurrent_requests-Keeps (pos n) next r p k w e =
      let refused' = refused w p e in
      let at_once = k w e in
      let counted = k (record w { in_flight = w.in_flight + 1 }) e in ground arith

  pub cors-Keeps :
      (cfg : CorsConfig) (next : Handler L) (r : Request)
      → P s
      → Keeps next r
      → Keeps (cors cfg next) r
  unfolding cors
  cors-Keeps cfg next r p k w e = let refused' = refused w p e in let passed = k w e in ground arith

  pub csrf_protection-Keeps :
      (allow_get_queries : Bool) (mode : Bytes) (next : Handler L) (r : Request)
      → P s
      → (is_graphql_path r.path ≡ false ⊎ IsJson r → Keeps next r)
      → Keeps (csrf_protection allow_get_queries mode next) r
  unfolding csrf_protection
  csrf_protection-Keeps allow_get_queries mode next r p k w e =
      let refused' = refused w p e in
      elim (Bool-cases (is_graphql_path r.path)) [
        | inr other ↦ let passed = k (inl other) w e in ground arith
        | inl graphql ↦ elim (Bool-cases (is_forged r)) [
          | inl forged ↦ ground arith
          | inr not_forged ↦ let passed = k (inr (λ post. ground arith)) w e in ground arith
        ]
      ]

  pub auth_middleware-Keeps :
      (auth : Authenticator) (next : Handler L) (r : Request)
      → P s
      → (is_public_endpoint r.path ≡ true → Keeps next r)
      → ((identity : AuthIdentity)
          → auth r ≡ ok identity
          → Keeps next (record r { identity = some identity }))
      → Keeps (auth_middleware auth next) r
  unfolding auth_middleware authenticated
  auth_middleware-Keeps auth next r p public k w e = elim (Bool-cases (is_public_endpoint r.path)) [
    | inl h ↦ rw h (public h w e)
    | inr h ↦ elim (Result-cases (auth r)) [
      | inl (failed, same) ↦ rw h (rw same (refused w p e))
      | inr (identity, same) ↦ rw h (rw same (k identity same w e))
    ]
  ]

  pub auth_failure_limiter_middleware-Keeps :
      (now : ℕ) (next : Handler L) (r : Request)
      → P s
      → Keeps next r
      → Keeps (auth_failure_limiter_middleware now next) r
  unfolding auth_failure_limiter_middleware
  auth_failure_limiter_middleware-Keeps now next r p k w e =
      let refused' = refused w p e in let passed = k w e in ground arith

  limited-Keeps :
      (next : Handler L) (r : Request) (answer : Option RateLimitResult × L)
      → P s
      → Keeps next r
      → (w : World L) → w.served ≡ s
      → P (limited next r w answer).1.served
  unfolding limited
  limited-Keeps next r (none, l) p k w e = k (record w { limiter = l }) e
  limited-Keeps next r (some result, l) p k w e =
      let refused' = refused w p e in let passed = k (record w { limiter = l }) e in ground arith

  pub rate_limit_middleware-Keeps :
      (allow : RateLimiter L) (strip_port : Bytes → Bytes) (with_extractor : Bool)
      (next : Handler L) (r : Request)
      → P s
      → Keeps next r
      → Keeps (rate_limit_middleware allow strip_port with_extractor next) r
  unfolding rate_limit_middleware
  rate_limit_middleware-Keeps allow strip_port with_extractor next r p k w e =
      elim (Bool-cases (is_public_endpoint r.path)) [
        | inl h ↦ rw h (k w e)
        | inr h ↦ rw h (limited-Keeps next r _ p k w e)
      ]
