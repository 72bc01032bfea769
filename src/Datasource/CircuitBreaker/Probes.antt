-- ===== src/Datasource/CircuitBreaker/Probes.antt =====
-- What an open breaker lets through, and how a half-open one can stay shut for good.
use mountain_king.Datasource.CircuitBreaker.{
  circuit_open, circuit_half_open, CircuitBreaker, allow_request, record_success, record_failure,
}
use mountain_king.Datasource.CircuitBreaker.Events.{grants}
use mountain_king.Prelude.{
  ℕ, zero, suc, ◌+◌, ◌-◌, ◌≤◌, ◌<◌, ◌≡◌, refl, sym, subst, List, [], ◌∷◌, arith, All, ◌≢◌,
}

grants_shut :
    (nows : List ℕ) (cb : CircuitBreaker)
    → cb.state ≡ circuit_open
    → All (λ now. now - cb.opened_at < cb.config.open_duration) nows
    → grants nows cb ≡ 0
unfolding grants allow_request
grants_shut [] cb e a = refl
grants_shut (now ∷ nows) cb e (h, a) = ground (arith, grants_shut nows cb e a)

trips-opened_at :
    (last : ℕ) (cb : CircuitBreaker)
    → cb.state ≢ circuit_open
    → (record_failure last cb).state ≡ circuit_open
    → ((record_failure last cb).opened_at ≡ last)
      × ((record_failure last cb).config.open_duration ≡ cb.config.open_duration)
unfolding record_failure
trips-opened_at last cb n e = ground arith

-- A failure that opens a breaker shuts it for the open duration, counted from that failure: no
-- request before its end is let through.
pub grants-record_failure :
    (last : ℕ) (nows : List ℕ) (cb : CircuitBreaker)
    → cb.state ≢ circuit_open
    → (record_failure last cb).state ≡ circuit_open
    → All (λ now. now - last < cb.config.open_duration) nows
    → grants nows (record_failure last cb) ≡ 0
grants-record_failure last nows cb n e a =
    let (opened, same) = trips-opened_at last cb n e in
    grants_shut nows (record_failure last cb) e (
      subst (λ d. All (λ now. now - (record_failure last cb).opened_at < d) nows) (sym same)
        (subst (λ t. All (λ now. now - t < cb.config.open_duration) nows) (sym opened) a))

grants-half_open :
    (nows : List ℕ) (cb : CircuitBreaker)
    → cb.state ≡ circuit_half_open
    → cb.half_open_requests ≤ cb.config.half_open_max_requests
    → cb.half_open_requests + grants nows cb ≤ cb.config.half_open_max_requests
unfolding grants allow_request
grants-half_open [] cb e h = omega arith
grants-half_open (now ∷ nows) cb e h = ground (
  arith,
  grants-half_open nows cb,
  grants-half_open nows (record cb { half_open_requests = cb.half_open_requests + 1 }),
)

-- However many requests come, while no result is recorded an open breaker lets through at most the
-- configured number of probes.
pub grants-open :
    (nows : List ℕ) (cb : CircuitBreaker)
    → cb.state ≡ circuit_open
    → grants nows cb ≤ cb.config.half_open_max_requests
unfolding grants allow_request
grants-open [] cb e = omega arith
grants-open (now ∷ nows) cb e =
    let probing = record cb {
      state = circuit_half_open;
      success_count = 0;
      half_open_requests = 0;
    } in
    ground (
      arith,
      grants-open nows cb e,
      grants-half_open nows probing,
      grants-half_open nows (record probing { half_open_requests = 1 }),
    )

-- `rounds` requests, each let through at the moment `now` and successful before the next.
unfoldable pub probe_rounds : ℕ → ℕ → CircuitBreaker → CircuitBreaker
probe_rounds zero now cb = cb
probe_rounds (suc rounds) now cb = probe_rounds rounds now (record_success (allow_request now cb).0)

-- Half-open, with every probe used up and too few successes to close.
record IsLocked (cb : CircuitBreaker) : Type 0 where
  half : cb.state ≡ circuit_half_open
  spent : cb.half_open_requests ≡ cb.config.half_open_max_requests
