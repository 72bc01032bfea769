-- ===== src/Resolver/Execute/Order.antt =====
-- What a mutation does, and when.
use mountain_king.Errors.{ok}
use mountain_king.Middleware.Authz.{AuthIdentity, authorize, contains, denies}
use mountain_king.Middleware.Authz.Permits.{IsElem, contains_iff}
use mountain_king.Prelude.{
  ℕ, ◌+◌, ◌≡◌, ◌≢◌, ◌⊎◌, inl, inr, Option, refl, ◌↔◌, Bool, true, false, none, some, List, [], ◌∷◌,
  arith, Bytes, codes, if◌then◌else◌,
}
use mountain_king.Resolver.Execute.{
  Effect, executed, denial, approval, cleared, MutationExecPlan, Answer, success, failure,
  check_mutation_rate_limit, has_access, check_mutation_auth, audit, meter, invalidate_cache,
  run_write, run_checked, execute_mutation, Limiter, answered, absent, failed,
}

-- The effects of a kind.
pub is_execution : Effect → Bool
is_execution executed = true
is_execution e = false

pub is_audit : Effect → Bool
is_audit (denial r) = true
is_audit (approval n) = true
is_audit e = false

pub is_clearing : Effect → Bool
is_clearing (cleared d) = true
is_clearing e = false

unfoldable pub count : (Effect → Bool) → List Effect → ℕ
count p [] = 0
count p (e ∷ es) = let rest = count p es in if p e then 1 + rest else rest

-- Who may write to a data source: an identity with the operation `mutation`, whose data sources are
-- unrestricted or have this one among them.
abbrev pub IsAuthorized : Option AuthIdentity → Bytes → Type 0
IsAuthorized none target = ⊥
IsAuthorized (some identity) target =
    IsElem (codes "mutation") identity.operations
    × ((identity.datasources ≡ []) ⊎ IsElem target identity.datasources)

-- The answers of the checks, as the code has them.
record IsChecked (plan : MutationExecPlan) : Type 0 where
  pub enabled : plan.enabled ≡ true
  pub unlimited : check_mutation_rate_limit plan.limiter ≡ true
  pub authorized : check_mutation_auth plan.identity plan.datasource_name ≡ none
  pub valid : plan.validate ≡ ok tt
  pub writable : plan.get_writable ≡ ok tt

-- The conditions under which a write is built and executed.
pub record IsReady (plan : MutationExecPlan) : Type 0 where
  pub enabled : plan.enabled ≡ true
  pub unlimited : plan.limiter ≢ answered false
  pub authorized : IsAuthorized plan.identity plan.datasource_name
  pub valid : plan.validate ≡ ok tt
  pub writable : plan.get_writable ≡ ok tt

check_mutation_rate_limit-answered :
    (limiter : Limiter) → (check_mutation_rate_limit limiter ≡ true) ↔ (limiter ≢ answered false)
unfolding check_mutation_rate_limit
check_mutation_rate_limit-answered absent = (λ h e. cc, λ h. refl)
check_mutation_rate_limit-answered failed = (λ h e. cc, λ h. refl)
check_mutation_rate_limit-answered (answered true) = (λ h e. cc, λ h. refl)
check_mutation_rate_limit-answered (answered false) = (λ h e. cc, λ h. absurd (h refl))

has_access-IsElem :
    (datasources : List Bytes) (target : Bytes)
    → (has_access datasources target ≡ true) ↔ ((datasources ≡ []) ⊎ IsElem target datasources)
unfolding has_access
has_access-IsElem [] target = (λ h. inl refl, λ h. refl)
has_access-IsElem (d ∷ ds) target =
    let found = contains_iff (d ∷ ds) target in
    (λ h. inr (found.0 h), λ h. elim h [ inl e ↦ cc | inr e ↦ found.1 e ])

check_mutation_auth-IsAuthorized :
    (identity : Option AuthIdentity) (target : Bytes)
    → (check_mutation_auth identity target ≡ none) ↔ IsAuthorized identity target
unfolding check_mutation_auth has_access
check_mutation_auth-IsAuthorized none target = (λ h. cc, λ h. elim h [ ])
check_mutation_auth-IsAuthorized (some identity) target = ground (
  arith,
  contains_iff identity.operations (codes "mutation"),
  has_access-IsElem identity.datasources target,
)

execute_mutation-IsChecked :
    (plan : MutationExecPlan)
    → (IsChecked plan ↔ (count is_execution (execute_mutation plan).1 ≡ 1))
unfolding execute_mutation run_checked run_write audit meter invalidate_cache count is_execution
execute_mutation-IsChecked plan = ground arith

-- The function that builds and executes the write is called, and once only, exactly when mutations are
-- enabled, the rate limiter has not refused the request, the request has an identity with the operation
-- `mutation` whose data sources are unrestricted or have this one among them, the input is valid, and
-- the data source can be written.
pub execute_mutation-IsReady :
    (plan : MutationExecPlan) → (IsReady plan ↔ (count is_execution (execute_mutation plan).1 ≡ 1))
execute_mutation-IsReady plan =
    let unlimited = check_mutation_rate_limit-answered plan.limiter in
    let authorized = check_mutation_auth-IsAuthorized plan.identity plan.datasource_name in
    let checked = execute_mutation-IsChecked plan in
    (
      λ h. checked.0 (record {
        enabled = h.enabled;
        unlimited = unlimited.1 h.unlimited;
        authorized = authorized.1 h.authorized;
        valid = h.valid;
        writable = h.writable;
      }),
      λ h.
          let c = checked.1 h in
          record {
            enabled = c.enabled;
            unlimited = unlimited.0 c.unlimited;
            authorized = authorized.0 c.authorized;
            valid = c.valid;
            writable = c.writable;
          },
    )

-- With an audit log, a request that passes the feature gate and the rate limit leaves one entry there,
-- whatever happens to it after them.
pub count-execute_mutation :
    (plan : MutationExecPlan)
    → plan.has_audit ≡ true
    → plan.enabled ≡ true
    → check_mutation_rate_limit plan.limiter ≡ true
    → count is_audit (execute_mutation plan).1 ≡ 1
unfolding execute_mutation run_checked run_write audit meter invalidate_cache count is_audit
count-execute_mutation plan a e l = ground arith

unfoldable pub is_success : Answer → Bool
is_success (success n warning) = true
is_success (failure e) = false

-- With a cache, the entries of the data source are cleared exactly when the mutation succeeds; what
-- was read before a write that failed stays.
pub cleared-execute_mutation :
    (plan : MutationExecPlan)
    → plan.has_cache ≡ true
    → count is_clearing (execute_mutation plan).1
      ≡ (if is_success (execute_mutation plan).0 then 1 else 0)
unfolding execute_mutation run_checked run_write audit meter invalidate_cache count is_clearing
    is_success
cleared-execute_mutation plan c = ground arith

mutation-denies :
    (identity : AuthIdentity) (target : Bytes)
    → check_mutation_auth (some identity) target ≡ none
    → (denies identity.datasources target ≡ false)
      × (denies identity.operations (codes "mutation") ≡ false)
unfolding check_mutation_auth has_access contains denies
mutation-denies identity target h = ground arith

-- What the authorization of mutations lets through, the authorizer of the middleware lets through.
pub check_mutation_auth-authorize :
    (identity : AuthIdentity) (target : Bytes)
    → check_mutation_auth (some identity) target ≡ none
    → authorize (some identity) target (codes "mutation") ≡ ok tt
unfolding authorize
check_mutation_auth-authorize identity target h = ground (arith, mutation-denies identity target h)
