-- ===== src/Resolver/Execute.antt =====
-- internal/graphql/resolver: `executeMutation` of mutation_exec.go with the checks of
-- mutation_helpers.go. What it asks of its collaborators is a field of the plan, what it does to them
-- an effect, in the order in which it happens; `executed` is the call of the function that builds
-- and executes the write; logs and traces are left out.
pub mod Order
mod Tests
use mountain_king.Errors.{ApiError, Result, ok, err}
use mountain_king.Middleware.Authz.{AuthIdentity, contains}
use mountain_king.Prelude.{
  Bool, true, false, not, Option, none, some, List, [], ◌∷◌, ◌++◌, Bytes, codes, if◌then◌else◌,
}
use mountain_king.Prelude.Int.{ℤ, ltb_ℤ}

-- What the rate limiter answers.
pub data Limiter : Type 0 where
  absent failed : Limiter
  answered : Bool → Limiter

pub data MutationError : Type 0 where
  feature_disabled rate_limit_exceeded auth_missing insufficient_permission : MutationError
  refused : ApiError → MutationError

pub data Reason : Type 0 where
  authorization_denied validation_failed execution_failed : Reason

pub data Effect : Type 0 where
  executed : Effect
  metered : Bool → Effect
  denial : Reason → Effect
  approval : ℤ → Effect
  cleared : Bytes → Effect

-- The configuration, the resolver's optional parts, the request, and the results of the calls.
pub record MutationExecPlan : Type 0 where
  pub enabled : Bool
  pub datasource_name : Bytes
  pub max_affected_rows : ℤ
  pub has_metrics : Bool
  pub has_audit : Bool
  pub has_cache : Bool
  pub limiter : Limiter
  pub identity : Option AuthIdentity
  pub validate : Result (Unit {0})
  pub get_writable : Result (Unit {0})
  pub build_and_execute : Result ℤ

-- The number of rows, and whether there is a warning.
pub data Answer : Type 0 where
  success : ℤ → Bool → Answer
  failure : MutationError → Answer

unfoldable pub check_mutation_rate_limit : Limiter → Bool
check_mutation_rate_limit absent = true
check_mutation_rate_limit failed = true
check_mutation_rate_limit (answered allowed) = allowed

unfoldable pub has_access : List Bytes → Bytes → Bool
unfolding contains
has_access [] datasource = true
has_access (d ∷ ds) datasource = contains (d ∷ ds) datasource

unfoldable pub check_mutation_auth : Option AuthIdentity → Bytes → Option MutationError
unfolding contains has_access
check_mutation_auth none target = some auth_missing
check_mutation_auth (some identity) target =
    if not (contains identity.operations (codes "mutation"))
    then some insufficient_permission
    else if not (has_access identity.datasources target)
    then some insufficient_permission
    else none

unfoldable pub audit : MutationExecPlan → Effect → List Effect
audit plan e = if plan.has_audit then e ∷ [] else []

unfoldable pub meter : MutationExecPlan → Bool → List Effect
meter plan passed = if plan.has_metrics then metered passed ∷ [] else []

unfoldable pub invalidate_cache : MutationExecPlan → List Effect
invalidate_cache plan = if plan.has_cache then cleared plan.datasource_name ∷ [] else []

-- From the call of `buildAndExecute` on.
unfoldable pub run_write : MutationExecPlan → Answer × List Effect
unfolding audit meter invalidate_cache
run_write plan = elim plan.build_and_execute [
  | err e ↦
      (failure (refused e), executed ∷ (meter plan false ++ audit plan (denial execution_failed)))
  | ok affected ↦ (
    success affected (ltb_ℤ plan.max_affected_rows affected),
    executed ∷ (meter plan true ++ (audit plan (approval affected) ++ invalidate_cache plan)),
  )
]

-- From the authorization on.
unfoldable pub run_checked : MutationExecPlan → Answer × List Effect
unfolding check_mutation_auth audit run_write
run_checked plan = elim (check_mutation_auth plan.identity plan.datasource_name) [
  | some e ↦ (failure e, audit plan (denial authorization_denied))
  | none ↦ elim plan.validate [
    | err e ↦ (failure (refused e), audit plan (denial validation_failed))
    | ok _ ↦ elim plan.get_writable [
      | err e ↦ (failure (refused e), audit plan (denial execution_failed))
      | ok _ ↦ run_write plan
    ]
  ]
]

unfoldable pub execute_mutation : MutationExecPlan → Answer × List Effect
unfolding check_mutation_rate_limit run_checked
execute_mutation plan =
    if not plan.enabled
    then (failure feature_disabled, [])
    else if not (check_mutation_rate_limit plan.limiter)
    then (failure rate_limit_exceeded, [])
    else run_checked plan
