-- ===== src/Health.antt =====
-- internal/health/health.go: the answers of /health and /ready, over the data source manager. A check
-- comes to whether it succeeds; the texts of errors are left out.
mod Ready
mod Tests
use mountain_king.Datasource.Manager.{DataSourceManager, health_check_all}
use mountain_king.Prelude.{ℕ, Bool, true, false, not, List, [], ◌∷◌, Bytes, if◌then◌else◌, all, any}
use mountain_king.Table.{Table, put}

pub data Status : Type 0 where
  ok degraded unavailable : Status

-- `healthResponse` with the status code; version and time of the build are constants.
pub record HealthResponse : Type 0 where
  pub status_code : ℕ
  pub status : Status
  pub entries : List (Bytes × Bool)

-- `HealthChecker`: the extra components with their checks.
abbrev pub HealthChecker : Type 0
HealthChecker = Table Bool

unfoldable pub register_component : Bytes → Bool → HealthChecker → HealthChecker
unfolding put
register_component name check components = put name check components

unfoldable pub liveness_check : HealthChecker → HealthResponse
liveness_check components =
    if not (all (λ c. c.1) components)
    then record { status_code = 503; status = degraded; entries = components }
    else record { status_code = 200; status = ok; entries = components }

-- `ReadinessCheck` with the results; there is no healthy one among no results.
unfoldable pub readiness_of : List (Bytes × Bool) → HealthResponse
readiness_of results =
    if not (any (λ r. r.1) results)
    then record { status_code = 503; status = unavailable; entries = results }
    else record { status_code = 200; status = ok; entries = results }

unfoldable pub readiness_check :
    {D : Type 0} → (D → Bool) → DataSourceManager D → HealthResponse × DataSourceManager D
unfolding health_check_all readiness_of
readiness_check health m =
    let (results, m') = health_check_all health m in (readiness_of results, m')
