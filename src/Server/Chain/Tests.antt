-- ===== src/Server/Chain/Tests.antt =====
-- Requests through the whole chain.
use mountain_king.Errors.{
  Result, ok, err_auth_token_invalid, err_rate_limit_exceeded, err_validation_invalid_content_type,
}
use mountain_king.Http.{Request, World}
use mountain_king.Middleware.Auth.{
  auth_middleware, ApiKeyEntry, authenticate_api_key, authenticate_jwt, claimed, is_public_endpoint,
}
use mountain_king.Middleware.Authz.{AuthIdentity}
use mountain_king.Middleware.Guards.{RateLimiter}
use mountain_king.Prelude.{
  has_prefix, ℕ, zero, suc, ◌≡◌, ◌≢◌, refl, ◌⊎◌, true, false, none, some, [], ◌∷◌, Bytes, codes,
  bytes_eq, All, if◌then◌else◌,
}
use mountain_king.Prelude.Int.{pos}
use mountain_king.Server.Chain.{Deployment, serve_http, serve_all}
use mountain_king.Server.Chain.Entered.{IsEntered, serve_http-IsEntered}
use mountain_king.Server.Chain.Guessing.{IsGuess, serve_all-IsGuess}
use mountain_king.Value.{field, end, slice, cons, nil, string}

abbrev key : ApiKeyEntry
key = record {
  id = codes "k1";
  key_hash = codes "secret";
  expires_at = none;
  datasources = [];
  operations = codes "query" ∷ [];
}

abbrev auth : Request → Result AuthIdentity
auth = authenticate_api_key bytes_eq 7 (key ∷ [])

-- A limiter of so many tokens.
abbrev allow : RateLimiter ℕ
allow k count zero =
    (some (record { allowed = false; limit = pos 2; remaining = pos 0; reset_at = pos 9 }), 0)
allow k count (suc n) =
    (some (record { allowed = true; limit = pos 2; remaining = pos n; reset_at = pos 9 }), n)

abbrev deployment : Deployment ℕ
deployment = record {
  max_concurrent = pos 1;
  cors_config = record {
    enabled = false;
    allowed_origins = [];
    allowed_methods = [];
    allowed_headers = [];
  };
  allow_get_queries = false;
  mode = codes "production";
  authenticator = some auth;
  failure_limited = true;
  allow = allow;
  strip_port = λ a. a;
  respond = λ r. record { status = 200; code = none; headers = [] };
}

abbrev request : Bytes → Bytes → Request
request api_key content_type = record {
  path = codes "/graphql";
  method = codes "POST";
  header = λ name.
      if bytes_eq name (codes "X-API-Key")
      then api_key
      else if bytes_eq name (codes "Content-Type")
      then content_type
      else [];
  remote_addr = codes "9.9.9.9:5000";
  client_ip = codes "9.9.9.9";
  identity = none;
  batch_count = none;
}

abbrev json : Bytes
json = codes "application/json"

abbrev world : World ℕ
world = record {
  limiter = 1;
  failures = record { failures = λ ip. none; threshold = 3; window = 100; ban_dur = 50 };
  in_flight = 0;
  served = [];
}

second_is_limited :
    (serve_http deployment 5
      (request (codes "secret") json)
      (serve_http deployment 4 (request (codes "secret") json) world).1).0.code
    ≡ some err_rate_limit_exceeded
unfolding serve_http auth_middleware authenticate_api_key bytes_eq has_prefix
second_is_limited = refl

form_is_refused :
    (serve_http deployment 4 (request (codes "secret") (codes "text/plain")) world).0.code
    ≡ some err_validation_invalid_content_type
unfolding serve_http bytes_eq has_prefix
form_is_refused = refl

token_claims :
    authenticate_jwt
      (record {
        algorithm = codes "HS256";
        issuer = [];
        parse = λ a i t.
            claimed t
              (field (codes "operations") (slice (cons (string (codes "mutation")) nil)) end);
      })
      (record (request [] json) { header = λ name. codes "Bearer ada" })
    ≡ ok (record {
      subject = codes "ada";
      method = codes "jwt";
      operations = codes "mutation" ∷ [];
      datasources = [];
    })
unfolding authenticate_jwt
token_claims = refl

abbrev guess : Request
guess = request (codes "wrong") json

guess-IsGuess : IsGuess auth guess
unfolding is_public_endpoint authenticate_api_key bytes_eq
guess-IsGuess = record {
  private_path = refl;
  error = record { code = err_auth_token_invalid; status_code = 401 };
  failed = refl;
  status = refl;
}

serve_all-IsGuess_example :
    ((serve_all deployment ((1, guess) ∷ (2, guess) ∷ []) world).1 ≡ world)
    × All
        (λ response. response.status ≢ 429)
        (serve_all deployment ((1, guess) ∷ (2, guess) ∷ []) world).0
serve_all-IsGuess_example =
    serve_all-IsGuess deployment auth ((1, guess) ∷ (2, guess) ∷ []) world refl
      (guess-IsGuess, (guess-IsGuess, tt))

serve_http-IsEntered_example :
    ((serve_http deployment 4 (request (codes "secret") json) world).1.served ≡ [])
    ⊎ ((entered : Request) × IsEntered deployment auth (request (codes "secret") json) entered
        × ((serve_http deployment 4 (request (codes "secret") json) world).1.served ≡ entered ∷ []))
serve_http-IsEntered_example =
    serve_http-IsEntered deployment auth 4 (request (codes "secret") json) world refl
