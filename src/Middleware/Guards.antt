-- ===== src/Middleware/Guards.antt =====
-- internal/middleware: the cross-origin rules (cors.go), the protection against forged requests
-- (csrf.go), the limit of concurrent requests (concurrency.go) and the rate limit (ratelimit.go).
use mountain_king.Errors.{
  err_validation_get_query_disabled, err_validation_invalid_content_type, err_service_unavailable,
  err_rate_limit_exceeded,
}
use mountain_king.Http.{Request, Response, World, Handler, refusal, with_header}
use mountain_king.Middleware.Auth.{is_public_endpoint}
use mountain_king.Middleware.Authz.{AuthIdentity}
use mountain_king.Prelude.{
  zero, suc, ◌+◌, ◌-◌, Bool, not, ◌&&◌, ◌||◌, Option, none, some, List, [], ◌∷◌, ◌++◌, Bytes, codes,
  bytes_eq, if◌then◌else◌, ltb, any, join, ◌==◌,
}
use mountain_king.Prelude.Decimal.{format_int}
use mountain_king.Prelude.Int.{ℤ, pos, negsuc}
use mountain_king.Prometheus.Validator.{contains_text}

pub record CorsConfig : Type 0 where
  pub enabled : Bool
  pub allowed_origins : List Bytes
  pub allowed_methods : List Bytes
  pub allowed_headers : List Bytes

unfoldable pub is_allowed_origin : CorsConfig → Bytes → Bool
unfolding bytes_eq
is_allowed_origin cfg origin =
    any (bytes_eq (codes "*")) cfg.allowed_origins || any (bytes_eq origin) cfg.allowed_origins

unfoldable pub origin_answer : CorsConfig → Bytes → Bytes
unfolding bytes_eq
origin_answer cfg origin =
    if any (bytes_eq (codes "*")) cfg.allowed_origins then codes "*" else origin

unfoldable pub preflight : CorsConfig → Response
unfolding join
preflight cfg = record {
  status = 204;
  code = none;
  headers =
      (codes "Access-Control-Allow-Methods", join cfg.allowed_methods (codes ", "))
      ∷ (codes "Access-Control-Allow-Headers", join cfg.allowed_headers (codes ", "))
      ∷ (codes "Access-Control-Max-Age", codes "86400")
      ∷ [];
}

abbrev allow_origin : Bytes → {L : Type 0} → Response × World L → Response × World L
allow_origin answer (response, w) =
    (with_header (codes "Access-Control-Allow-Origin") answer response, w)

unfoldable pub cors : {L : Type 0} → CorsConfig → Handler L → Handler L
unfolding is_allowed_origin origin_answer preflight bytes_eq
cors cfg next r w =
    let origin = r.header (codes "Origin") in
    if not cfg.enabled || (bytes_eq origin [] || not (is_allowed_origin cfg origin))
    then next r w
    else allow_origin (origin_answer cfg origin)
        (if bytes_eq r.method (codes "OPTIONS") then (preflight cfg, w) else next r w)

unfoldable pub is_graphql_path : Bytes → Bool
unfolding bytes_eq
is_graphql_path path = bytes_eq path (codes "/graphql") || bytes_eq path (codes "/graphql/")

unfoldable pub csrf_protection : {L : Type 0} → Bool → Bytes → Handler L → Handler L
unfolding is_graphql_path contains_text bytes_eq
csrf_protection allow_get_queries mode next r w =
    let block_get = bytes_eq mode (codes "production") && not allow_get_queries in
    if not (is_graphql_path r.path)
    then next r w
    else if block_get && bytes_eq r.method (codes "GET")
    then (refusal 403 err_validation_get_query_disabled, w)
    else if bytes_eq r.method (codes "POST")
        && not (contains_text (r.header (codes "Content-Type")) (codes "application/json"))
    then (refusal 415 err_validation_invalid_content_type, w)
    else next r w

-- The place that `defer` gives back.
abbrev released : {L : Type 0} → Response × World L → Response × World L
released (response, w) = (response, record w { in_flight = w.in_flight - 1 })

-- `maxConcurrent`, which stands for no limit if it is not positive.
unfoldable pub max_concurrent_requests : {L : Type 0} → ℤ → Handler L → Handler L
unfolding is_public_endpoint
max_concurrent_requests (negsuc n) next r w = next r w
max_concurrent_requests (pos n) next r w =
    if n == 0 || is_public_endpoint r.path
    then next r w
    else if ltb w.in_flight n
    then released (next r (record w { in_flight = w.in_flight + 1 }))
    else (with_header (codes "Retry-After") (codes "5") (refusal 503 err_service_unavailable), w)

-- The answer of a limiter, and its interface over states `L`: an error is none.
pub record RateLimitResult : Type 0 where
  pub allowed : Bool
  pub limit : ℤ
  pub remaining : ℤ
  pub reset_at : ℤ

abbrev pub RateLimiter : Type 0 → Type 0
RateLimiter L = Bytes → ℤ → L → Option RateLimitResult × L

-- The key of an identity; `fallback` is that of the address.
unfoldable pub identity_key : Bytes → AuthIdentity → Bytes
unfolding bytes_eq
identity_key fallback identity =
    if bytes_eq identity.method (codes "apikey")
    then codes "apikey:" ++ identity.subject
    else if bytes_eq identity.method (codes "jwt")
    then codes "jwt:" ++ identity.subject
    else fallback

-- `with_extractor` tells whether there is an extractor; `strip_port` is the package net's.
unfoldable pub extract_rate_limit_key : (Bytes → Bytes) → Bool → Request → Bytes
unfolding identity_key
extract_rate_limit_key strip_port with_extractor r =
    let fallback =
      codes "ip:" ++ (if with_extractor then r.client_ip else strip_port r.remote_addr) in
    elim r.identity [ none ↦ fallback | some identity ↦ identity_key fallback identity ]

unfoldable pub extract_batch_count : Option ℤ → ℤ
extract_batch_count none = pos 1
extract_batch_count (some (pos zero)) = pos 1
extract_batch_count (some (pos (suc n))) = pos (suc n)
extract_batch_count (some (negsuc n)) = pos 1

unfoldable pub set_rate_limit_headers : RateLimitResult → Response → Response
unfolding format_int
set_rate_limit_headers result response =
    with_header (codes "X-RateLimit-Limit") (format_int result.limit) (
      with_header (codes "X-RateLimit-Remaining") (format_int result.remaining)
        (with_header (codes "X-RateLimit-Reset") (format_int result.reset_at) response))

abbrev headed : RateLimitResult → {L : Type 0} → Response × World L → Response × World L
headed result (response, w) = (set_rate_limit_headers result response, w)

-- On what the limiter answers.
unfoldable pub limited :
    {L : Type 0} → Handler L → Request → World L → Option RateLimitResult × L → Response × World L
unfolding set_rate_limit_headers
limited next r w (none, l) = next r (record w { limiter = l })
limited next r w (some result, l) = headed result (
    if not result.allowed
    then (refusal 429 err_rate_limit_exceeded, record w { limiter = l })
    else next r (record w { limiter = l }))

unfoldable pub rate_limit_middleware :
    {L : Type 0} → RateLimiter L → (Bytes → Bytes) → Bool → Handler L → Handler L
unfolding is_public_endpoint extract_rate_limit_key extract_batch_count limited
rate_limit_middleware allow strip_port with_extractor next r w =
    let key = extract_rate_limit_key strip_port with_extractor r in
    let count = extract_batch_count r.batch_count in
    if is_public_endpoint r.path then next r w else limited next r w (allow key count w.limiter)
