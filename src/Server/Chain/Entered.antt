-- ===== src/Server/Chain/Entered.antt =====
-- Which requests reach the resolvers.
use mountain_king.Errors.{ok}
use mountain_king.Http.{Request, World, Handler}
use mountain_king.Middleware.Auth.{Authenticator, is_public_endpoint}
use mountain_king.Middleware.Authz.{AuthIdentity}
use mountain_king.Middleware.Guards.{is_graphql_path, cors, csrf_protection}
use mountain_king.Prelude.{
  subst, sym, ap, ◌≡◌, refl, ◌⊎◌, true, false, some, List, ◌∷◌, codes, bytes_eq_iff, arith,
  Bool-cases, inr, inl, Bool, ℕ,
}
use mountain_king.Server.Chain.{
  Deployment, is_graphql_route, router, behind_auth, serve_http, use_if,
  auth_failure_limiter_middleware, use_auth,
}
use mountain_king.Server.Chain.Layers.{
  IsJson, Keeps, rate_limit_middleware-Keeps, csrf_protection-Keeps, auth_middleware-Keeps,
  max_concurrent_requests-Keeps, auth_failure_limiter_middleware-Keeps, cors-Keeps,
}

-- A request that is served, as it reaches a resolver: one of GraphQL, JSON if it is a POST, with the
-- identity that the authenticator has found.
pub record IsEntered {L : Type 0} (d : Deployment L) (auth : Authenticator) (r entered : Request)
    : Type 0 where
  pub route : is_graphql_route d r ≡ true
  pub json : IsJson r
  pub identity : AuthIdentity
  pub found : auth r ≡ ok identity
  pub same : entered ≡ record r { identity = some identity }

module _ {L : Type 0} (d : Deployment L) (auth : Authenticator) (r : Request) where
  -- The requests that have been served, before and after.
  abbrev pub Extends : List Request → List Request → Type 0
  Extends before after =
      (after ≡ before)
      ⊎ ((entered : Request) × IsEntered d auth r entered × (after ≡ entered ∷ before))

  route_paths :
      (r' : Request)
      → is_graphql_route d r' ≡ true
      → (is_graphql_path r'.path ≡ true) × (is_public_endpoint r'.path ≡ false)
  unfolding is_graphql_route is_graphql_path is_public_endpoint
  route_paths r' h =
      let e : r'.path ≡ codes "/graphql" =
        (bytes_eq_iff r'.path (codes "/graphql")).0 (ground arith) in
      (rw e refl, rw e refl)

  router-Extends :
      (identity : AuthIdentity) (before : List Request)
      → (is_graphql_path r.path ≡ false) ⊎ IsJson r
      → auth r ≡ ok identity
      → Keeps (Extends before) before (router d) (record r { identity = some identity })
  unfolding router
  router-Extends identity before json found w e =
      elim (Bool-cases (is_graphql_route d (record r { identity = some identity }))) [
        | inr h ↦ rw h (inl e)
        | inl h ↦ rw h (
            inr (
              record r { identity = some identity },
              record {
                route = h;
                json = elim json [ inr j ↦ j | inl other ↦ let p = (route_paths r h).0 in cc ];
                identity = identity;
                found = found;
                same = refl;
              },
              ap (λ t. record r { identity = some identity } ∷ t) e,
            ))
      ]

  public-Extends :
      (before : List Request)
      → is_public_endpoint r.path ≡ true
      → Keeps (Extends before) before (router d) r
  unfolding router
  public-Extends before public w e = elim (Bool-cases (is_graphql_route d r)) [
    | inr h ↦ rw h (inl e)
    | inl h ↦ let p = (route_paths r h).1 in cc
  ]

use_if-Keeps :
    {L : Type 0} (P : List Request → Type 0) (s : List Request) (b : Bool) (now : ℕ)
    (next : Handler L) (r : Request)
    → P s
    → Keeps P s next r
    → Keeps P s (use_if b (auth_failure_limiter_middleware now) next) r
use_if-Keeps P s true now next r p k = auth_failure_limiter_middleware-Keeps P s now next r p k
use_if-Keeps P s false now next r p k = k

behind_auth-Keeps :
    {L : Type 0} (P : List Request → Type 0) (s : List Request) (d : Deployment L) (now : ℕ)
    (r : Request)
    → P s
    → Keeps P s (router d) r
    → Keeps P s (behind_auth d now) r
unfolding behind_auth
behind_auth-Keeps P s d now r p k =
    use_if-Keeps P s d.failure_limited now _ r p
      (rate_limit_middleware-Keeps P s d.allow d.strip_port d.failure_limited (router d) r p k)

-- With an authenticator, a request adds at most one to the requests that reach a resolver, and only
-- if it is on a route of GraphQL, is JSON if it is a POST, and the authenticator has found the
-- identity that it reaches the resolver with.
pub serve_http-IsEntered :
    {L : Type 0} (d : Deployment L) (auth : Authenticator) (now : ℕ) (r : Request) (w : World L)
    → d.authenticator ≡ some auth
    → ((serve_http d now r w).1.served ≡ w.served)
      ⊎ ((entered : Request) × IsEntered d auth r entered
          × ((serve_http d now r w).1.served ≡ entered ∷ w.served))
unfolding serve_http
serve_http-IsEntered d auth now r w e =
    let P = Extends d auth r w.served in
    let s = w.served in
    let unchanged : P s = inl refl in
    let next = behind_auth d now in
    let by_auth = λ (json : (is_graphql_path r.path ≡ false) ⊎ IsJson r).
      subst (λ o. Keeps P s (use_auth o next) r) (sym e)
        (auth_middleware-Keeps P s auth next r unchanged
          (λ public. behind_auth-Keeps P s d now r unchanged (public-Extends d auth r s public))
          (λ identity found.
            behind_auth-Keeps P s d now (record r { identity = some identity }) unchanged
              (router-Extends d auth r identity s json found))) in
    let authed = use_auth d.authenticator next in
    let guarded = csrf_protection d.allow_get_queries d.mode authed in
    max_concurrent_requests-Keeps P s d.max_concurrent (cors d.cors_config guarded) r unchanged
      (cors-Keeps P s d.cors_config guarded r unchanged
        (csrf_protection-Keeps P s d.allow_get_queries d.mode authed r unchanged by_auth))
      w refl
