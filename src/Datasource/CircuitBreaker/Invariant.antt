-- ===== src/Datasource/CircuitBreaker/Invariant.antt =====
-- The counters of a breaker stay below its thresholds, and when it trips.
use mountain_king.Datasource.CircuitBreaker.{
  CircuitState, circuit_closed, circuit_open, circuit_half_open, CircuitBreakerConfig,
  CircuitBreaker, positive_or, new_circuit_breaker, allow_request, record_success, record_failure,
}
use mountain_king.Datasource.CircuitBreaker.Events.{Event, allow, success, failure, step, run}
use mountain_king.Prelude.{
  ℕ, zero, suc, ◌+◌, ◌≤◌, ◌<◌, ◌≡◌, refl, List, [], ◌∷◌, map, arith, length, ltb, if◌then◌else◌,
}
use mountain_king.Prelude.Int.{ℤ, pos, negsuc}

abbrev pub Counts : CircuitState → CircuitBreaker → Type 0
Counts circuit_closed cb = cb.failure_count < cb.config.failure_threshold
Counts circuit_open cb = cb.failure_count ≤ cb.config.failure_threshold
Counts circuit_half_open cb =
    (cb.success_count < cb.config.success_threshold)
    × (cb.half_open_requests ≤ cb.config.half_open_max_requests)

pub record IsValid (cb : CircuitBreaker) : Type 0 where
  pub failures : 0 < cb.config.failure_threshold
  pub duration : 0 < cb.config.open_duration
  pub probes : 0 < cb.config.half_open_max_requests
  pub successes : 0 < cb.config.success_threshold
  pub counts : Counts cb.state cb

positive_or-pos : (z : ℤ) (d : ℕ) → 0 < d → 0 < positive_or z d
unfolding positive_or
positive_or-pos (pos zero) d h = h
positive_or-pos (pos (suc n)) d h = omega arith
positive_or-pos (negsuc n) d h = h

new-IsValid : (cfg : CircuitBreakerConfig ℤ) → IsValid (new_circuit_breaker cfg)
unfolding new_circuit_breaker
new-IsValid cfg = record {
  failures = positive_or-pos cfg.failure_threshold 5 (omega arith);
  duration = positive_or-pos cfg.open_duration _ (omega arith);
  probes = positive_or-pos cfg.half_open_max_requests 1 (omega arith);
  successes = positive_or-pos cfg.success_threshold 2 (omega arith);
  counts = positive_or-pos cfg.failure_threshold 5 (omega arith);
}

pub step-IsValid : (e : Event) (cb : CircuitBreaker) → IsValid cb → IsValid (step e cb)
unfolding step allow_request record_success record_failure
step-IsValid (allow now) cb v = ground arith
step-IsValid success cb v = ground arith
step-IsValid (failure now) cb v = ground arith

run-IsValid_from : (es : List Event) (cb : CircuitBreaker) → IsValid cb → IsValid (run es cb)
unfolding run
run-IsValid_from [] cb v = v
run-IsValid_from (e ∷ es) cb v = run-IsValid_from es (step e cb) (step-IsValid e cb v)

-- After any sequence of calls, a breaker made from any configuration has positive thresholds, and
-- its counters fit them: closed, fewer failures than the threshold; half open, fewer successes than
-- the threshold and at most the allowed probes.
pub run-IsValid :
    (cfg : CircuitBreakerConfig ℤ) (es : List Event) → IsValid (run es (new_circuit_breaker cfg))
run-IsValid cfg es = run-IsValid_from es _ (new-IsValid cfg)

run-failures_open :
    (nows : List ℕ) (cb : CircuitBreaker) → cb.state ≡ circuit_open → run (map failure nows) cb ≡ cb
unfolding run step record_failure
run-failures_open [] cb e = refl
run-failures_open (now ∷ nows) cb e = ground (arith, run-failures_open nows cb)

-- From a valid closed breaker, failures in a row leave it closed while, with those already counted,
-- they are below the threshold, and open once they reach it.
pub run-failures :
    (nows : List ℕ) (cb : CircuitBreaker)
    → IsValid cb
    → cb.state ≡ circuit_closed
    → (run (map failure nows) cb).state ≡ (
        if ltb (cb.failure_count + length nows) cb.config.failure_threshold
        then circuit_closed
        else circuit_open)
unfolding run step record_failure
run-failures [] cb v e = ground arith
run-failures (now ∷ nows) cb v e =
    let next = record_failure now cb in
    ground
      (arith, step-IsValid (failure now) cb v, run-failures nows next, run-failures_open nows next)
