-- ===== src/Resolver/Execute/Tests.antt =====
-- Mutations that pass and that fail.
use mountain_king.Errors.{ok, ApiError, err, err_validation_invalid_table}
use mountain_king.Middleware.Authz.{AuthIdentity}
use mountain_king.Prelude.{◌≡◌, ◌↔◌, refl, true, false, none, some, [], ◌∷◌, codes, bytes_eq}
use mountain_king.Prelude.Int.{pos}
use mountain_king.Resolver.Execute.{
  absent, execution_failed, executed, metered, denial, approval, cleared, MutationExecPlan, success,
  failure, auth_missing, refused, authorization_denied, check_mutation_auth, execute_mutation,
}
use mountain_king.Resolver.Execute.Order.{IsReady, is_execution, count, execute_mutation-IsReady}

abbrev writer : AuthIdentity
writer = record {
  subject = codes "w";
  method = codes "jwt";
  datasources = [];
  operations = codes "mutation" ∷ [];
}

abbrev plan : MutationExecPlan
plan = record {
  enabled = true;
  datasource_name = codes "db";
  max_affected_rows = pos 10;
  has_metrics = true;
  has_audit = true;
  has_cache = true;
  limiter = absent;
  identity = some writer;
  validate = ok tt;
  get_writable = ok tt;
  build_and_execute = ok (pos 11);
}

abbrev unavailable : ApiError
unavailable = record { code = err_validation_invalid_table; status_code = 400 }

passes : execute_mutation plan ≡ (
  success (pos 11) true,
  executed ∷ metered true ∷ approval (pos 11) ∷ cleared (codes "db") ∷ [],
)
unfolding execute_mutation bytes_eq
passes = refl

fails :
    execute_mutation (record plan { build_and_execute = err unavailable })
    ≡ (failure (refused unavailable), executed ∷ metered false ∷ denial execution_failed ∷ [])
unfolding execute_mutation bytes_eq
fails = refl

anonymous :
    execute_mutation (record plan { identity = none })
    ≡ (failure auth_missing, denial authorization_denied ∷ [])
unfolding execute_mutation
anonymous = refl

is_authorized : check_mutation_auth (some writer) (codes "db") ≡ none
unfolding check_mutation_auth bytes_eq
is_authorized = refl

execute_mutation-IsReady_example : IsReady plan ↔ (count is_execution (execute_mutation plan).1 ≡ 1)
execute_mutation-IsReady_example = execute_mutation-IsReady plan
