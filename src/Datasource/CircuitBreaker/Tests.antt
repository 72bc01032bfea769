-- ===== src/Datasource/CircuitBreaker/Tests.antt =====
-- Runs of a breaker at concrete moments, and the theorems at inputs that meet their hypotheses.
use mountain_king.Datasource.CircuitBreaker.{
  circuit_closed, circuit_open, CircuitBreakerConfig, CircuitBreaker, new_circuit_breaker,
  record_failure,
}
use mountain_king.Datasource.CircuitBreaker.Events.{allow, success, failure, step, run, grants}
use mountain_king.Datasource.CircuitBreaker.Invariant.{IsValid, run-IsValid}
use mountain_king.Datasource.CircuitBreaker.Probes.{grants-record_failure, grants-open}
use mountain_king.Prelude.{ℕ, ◌≤◌, ◌≡◌, refl, [], ◌∷◌, arith}
use mountain_king.Prelude.Int.{ℤ, pos}

abbrev defaults : CircuitBreakerConfig ℤ
defaults = record {
  failure_threshold = pos 0;
  open_duration = pos 0;
  half_open_max_requests = pos 0;
  success_threshold = pos 0;
}

abbrev fresh : CircuitBreaker
unfolding new_circuit_breaker
fresh = new_circuit_breaker defaults

abbrev config : CircuitBreakerConfig ℕ
config = record {
  failure_threshold = 2;
  open_duration = 30;
  half_open_max_requests = 1;
  success_threshold = 2;
}

abbrev quiet : CircuitBreaker
quiet = record {
  state = circuit_closed;
  failure_count = 0;
  success_count = 0;
  last_failure_at = 0;
  opened_at = 0;
  half_open_requests = 0;
  config = config;
}

abbrev tripped : CircuitBreaker
tripped = record quiet {
  state = circuit_open;
  failure_count = 2;
  last_failure_at = 7;
  opened_at = 7;
}

quiet-IsValid : IsValid quiet
quiet-IsValid = ground arith

trips : run (failure 5 ∷ failure 7 ∷ []) quiet ≡ tripped
unfolding run step record_failure
trips = refl

-- The defaults allow one probe and ask for two successes.
default_probes : fresh.config.half_open_max_requests ≡ 1
unfolding new_circuit_breaker
default_probes = refl

run-IsValid_example :
    IsValid (run (failure 5 ∷ allow 9 ∷ success ∷ []) (new_circuit_breaker defaults))
run-IsValid_example = run-IsValid defaults (failure 5 ∷ allow 9 ∷ success ∷ [])

grants-record_failure_example :
    grants (8 ∷ 36 ∷ []) (record_failure 7 (record quiet { failure_count = 1 })) ≡ 0
unfolding record_failure
grants-record_failure_example =
    grants-record_failure 7 (8 ∷ 36 ∷ []) (record quiet { failure_count = 1 }) (ground arith) refl
      (omega arith, (omega arith, tt))

grants-open_example : grants (8 ∷ 40 ∷ 41 ∷ []) tripped ≤ 1
grants-open_example = grants-open (8 ∷ 40 ∷ 41 ∷ []) tripped refl
