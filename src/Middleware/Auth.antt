-- ===== src/Middleware/Auth.antt =====
-- internal/middleware/auth.go and auth_middleware.go. The package jwt parses and verifies a token, and
-- the package bcrypt compares a key with its hash: both are parameters.
use mountain_king.Errors.{
  Code, Result, ok, err, err_auth_missing, err_auth_token_expired, err_auth_token_invalid,
}
use mountain_king.Http.{Request, Response, World, Handler, refusal}
use mountain_king.Middleware.Authz.{AuthIdentity}
use mountain_king.Prelude.{
  ℕ, Bool, false, not, ◌||◌, Option, none, some, List, [], ◌∷◌, Bytes, codes, bytes_eq, has_prefix,
  if◌then◌else◌, ltb,
}
use mountain_king.Prometheus.Validator.{contains_text}
use mountain_king.Value.{Value, Fields, Items, lookup_field, string, slice, nil, cons}

abbrev pub auth_error {ℓ} : {A : Type ℓ} → Code → Result A
auth_error code = err (record { code = code; status_code = 401 })

-- What `jwt.Parse` yields: an error with its text, a token that is not valid, claims of another type,
-- or claims with what `GetSubject` makes of them.
pub data Parsed : Type 0 where
  failed : (text : Bytes) → Parsed
  not_valid : Parsed
  no_claims : Parsed
  claimed : (subject : Bytes) → (claims : Fields) → Parsed

pub record JwtAuthenticator : Type 0 where
  pub algorithm : Bytes
  pub issuer : Bytes
  pub parse : (algorithm issuer token : Bytes) → Parsed

unfoldable pub is_token_expired : Bytes → Bool
unfolding contains_text
is_token_expired text = contains_text text (codes "token is expired")

unfoldable pub classify_error : Bytes → Result AuthIdentity
unfolding is_token_expired
classify_error text =
    if is_token_expired text
    then auth_error err_auth_token_expired
    else auth_error err_auth_token_invalid

-- The loop over a claim that is a list: its texts.
unfoldable pub texts_of : Items → List Bytes
texts_of nil = []
texts_of (cons (string s) vs) = s ∷ texts_of vs
texts_of (cons v vs) = texts_of vs

unfoldable pub claim_or : List Bytes → Option Value → List Bytes
unfolding texts_of
claim_or absent none = absent
claim_or absent (some (slice items)) = texts_of items
claim_or absent (some v) = absent

-- The identity of a token that was parsed.
unfoldable pub identity_of : Parsed → Result AuthIdentity
unfolding classify_error claim_or lookup_field
identity_of (failed text) = classify_error text
identity_of not_valid = auth_error err_auth_token_invalid
identity_of no_claims = auth_error err_auth_token_invalid
identity_of (claimed subject claims) = ok (record {
  subject = subject;
  method = codes "jwt";
  operations = claim_or (codes "query" ∷ []) (lookup_field (codes "operations") claims);
  datasources = claim_or [] (lookup_field (codes "datasources") claims);
})

abbrev bearer : Bytes
bearer = codes "Bearer "

-- The text behind a prefix that is there.
unfoldable pub behind : Bytes → Bytes → Bytes
behind s [] = s
behind [] (p ∷ ps) = []
behind (c ∷ s) (p ∷ ps) = behind s ps

unfoldable pub authenticate_jwt : JwtAuthenticator → Request → Result AuthIdentity
unfolding identity_of bytes_eq has_prefix behind
authenticate_jwt j r =
    let auth_header = r.header (codes "Authorization") in
    let token = behind auth_header bearer in
    if bytes_eq auth_header []
    then auth_error err_auth_missing
    else if not (has_prefix auth_header bearer)
    then auth_error err_auth_token_invalid
    else if bytes_eq token []
    then auth_error err_auth_missing
    else identity_of (j.parse j.algorithm j.issuer token)

-- An API key: `expires_at` is a moment, if it expires.
pub record ApiKeyEntry : Type 0 where
  pub id : Bytes
  pub key_hash : Bytes
  pub expires_at : Option ℕ
  pub datasources : List Bytes
  pub operations : List Bytes

unfoldable pub has_expired : ℕ → Option ℕ → Bool
has_expired now none = false
has_expired now (some t) = ltb t now

-- The loop over the keys; `matches hash key` is `CompareHashAndPassword`.
unfoldable pub find_key :
    (Bytes → Bytes → Bool) → ℕ → Bytes → List ApiKeyEntry → Result AuthIdentity
unfolding has_expired
find_key matches now key [] = auth_error err_auth_token_invalid
find_key matches now key (k ∷ keys) =
    let rest = find_key matches now key keys in
    if not (matches k.key_hash key)
    then rest
    else if has_expired now k.expires_at
    then auth_error err_auth_token_expired
    else ok (record {
      subject = k.id;
      method = codes "apikey";
      datasources = k.datasources;
      operations = k.operations;
    })

unfoldable pub authenticate_api_key :
    (Bytes → Bytes → Bool) → ℕ → List ApiKeyEntry → Request → Result AuthIdentity
unfolding find_key bytes_eq
authenticate_api_key matches now keys r =
    let key = r.header (codes "X-API-Key") in
    if bytes_eq key [] then auth_error err_auth_missing else find_key matches now key keys

unfoldable pub is_public_endpoint : Bytes → Bool
unfolding bytes_eq
is_public_endpoint path =
    bytes_eq path (codes "/health")
    || (bytes_eq path (codes "/ready")
        || (bytes_eq path (codes "/metrics") || bytes_eq path (codes "/playground")))

abbrev pub Authenticator : Type 0
Authenticator = Request → Result AuthIdentity

-- The handler behind the test, on what `Authenticate` answers.
unfoldable pub authenticated :
    {L : Type 0} → Handler L → Request → World L → Result AuthIdentity → Response × World L
authenticated next r w (err e) = (refusal e.status_code e.code, w)
authenticated next r w (ok identity) = next (record r { identity = some identity }) w

unfoldable pub auth_middleware : {L : Type 0} → Authenticator → Handler L → Handler L
unfolding is_public_endpoint authenticated
auth_middleware auth next r w =
    if is_public_endpoint r.path then next r w else authenticated next r w (auth r)
