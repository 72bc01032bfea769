-- ===== src/Datasource/CircuitBreaker/Events.antt =====
-- The calls that the clients of one breaker make, in the order in which they take its lock.
use mountain_king.Datasource.CircuitBreaker.{
  CircuitBreaker, allow_request, record_success, record_failure,
}
use mountain_king.Prelude.{ℕ, ◌+◌, List, [], ◌∷◌, if◌then◌else◌}

pub data Event : Type 0 where
  allow : ℕ → Event
  success : Event
  failure : ℕ → Event

unfoldable pub step : Event → CircuitBreaker → CircuitBreaker
step (allow now) cb = (allow_request now cb).0
step success cb = record_success cb
step (failure now) cb = record_failure now cb

unfoldable pub run : List Event → CircuitBreaker → CircuitBreaker
run [] cb = cb
run (e ∷ es) cb = run es (step e cb)

-- The number of requests that are let through, of requests at the given moments.
unfoldable pub grants : List ℕ → CircuitBreaker → ℕ
grants [] cb = 0
grants (now ∷ nows) cb =
    let (cb', allowed) = allow_request now cb in (if allowed then 1 else 0) + grants nows cb'
