-- ===== src/Datasource/CircuitBreaker.antt =====
-- internal/datasource/circuit_breaker.go: the state of a breaker and its operations. A moment is a
-- number of nanoseconds; each operation takes the moment `now` at which it holds the lock.
pub mod Events
mod Invariant
mod Probes
mod Tests
use mountain_king.Prelude.{ℕ, zero, suc, ◌+◌, ◌-◌, ◌*◌, Bool, true, false, ltb, leb, if◌then◌else◌}
use mountain_king.Prelude.Int.{ℤ, pos, negsuc}

pub data CircuitState : Type 0 where
  circuit_closed circuit_open circuit_half_open : CircuitState

-- The configuration as it is given, and the one that a breaker holds.
pub record CircuitBreakerConfig (N : Type 0) : Type 0 where
  pub failure_threshold : N
  pub open_duration : N
  pub half_open_max_requests : N
  pub success_threshold : N

pub record CircuitBreaker : Type 0 where
  pub state : CircuitState
  pub failure_count : ℕ
  pub success_count : ℕ
  pub last_failure_at : ℕ
  pub opened_at : ℕ
  pub half_open_requests : ℕ
  pub config : CircuitBreakerConfig ℕ

abbrev pub second : ℕ
second = 1_000_000_000

-- `if field <= 0 { field = default }`.
pub positive_or : ℤ → ℕ → ℕ
positive_or (pos zero) d = d
positive_or (pos (suc n)) d = suc n
positive_or (negsuc n) d = d

pub new_circuit_breaker : CircuitBreakerConfig ℤ → CircuitBreaker
unfolding positive_or
new_circuit_breaker cfg = record {
  state = circuit_closed;
  failure_count = 0;
  success_count = 0;
  last_failure_at = 0;
  opened_at = 0;
  half_open_requests = 0;
  config = record {
    failure_threshold = positive_or cfg.failure_threshold 5;
    open_duration = positive_or cfg.open_duration (30 * second);
    half_open_max_requests = positive_or cfg.half_open_max_requests 1;
    success_threshold = positive_or cfg.success_threshold 2;
  };
}

-- The test of a probe, the same in both cases of `AllowRequest`.
probe : CircuitBreaker → CircuitBreaker × Bool
probe cb =
    if ltb cb.half_open_requests cb.config.half_open_max_requests
    then (record cb { half_open_requests = cb.half_open_requests + 1 }, true)
    else (cb, false)

pub allow_from : CircuitState → ℕ → CircuitBreaker → CircuitBreaker × Bool
unfolding probe
allow_from circuit_closed now cb = (cb, true)
allow_from circuit_open now cb =
    if leb cb.config.open_duration (now - cb.opened_at)
    then probe (record cb { state = circuit_half_open; success_count = 0; half_open_requests = 0 })
    else (cb, false)
allow_from circuit_half_open now cb = probe cb

unfoldable pub allow_request : ℕ → CircuitBreaker → CircuitBreaker × Bool
unfolding allow_from
allow_request now cb = allow_from cb.state now cb

pub success_from : CircuitState → CircuitBreaker → CircuitBreaker
success_from circuit_closed cb = record cb { failure_count = 0 }
success_from circuit_open cb = cb
success_from circuit_half_open cb =
    if leb cb.config.success_threshold (cb.success_count + 1)
    then record cb {
      state = circuit_closed;
      failure_count = 0;
      success_count = 0;
      half_open_requests = 0;
    }
    else record cb { success_count = cb.success_count + 1 }

unfoldable pub record_success : CircuitBreaker → CircuitBreaker
unfolding success_from
record_success cb = success_from cb.state cb

pub failure_from : CircuitState → ℕ → CircuitBreaker → CircuitBreaker
failure_from circuit_closed now cb =
    if leb cb.config.failure_threshold (cb.failure_count + 1)
    then record cb {
      failure_count = cb.failure_count + 1;
      last_failure_at = now;
      state = circuit_open;
      opened_at = now;
    }
    else record cb { failure_count = cb.failure_count + 1; last_failure_at = now }
failure_from circuit_open now cb = cb
failure_from circuit_half_open now cb = record cb {
  state = circuit_open;
  opened_at = now;
  failure_count = 0;
  success_count = 0;
  half_open_requests = 0;
}

unfoldable pub record_failure : ℕ → CircuitBreaker → CircuitBreaker
unfolding failure_from
record_failure now cb = failure_from cb.state now cb
