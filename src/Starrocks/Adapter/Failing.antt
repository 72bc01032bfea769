-- ===== src/Starrocks/Adapter/Failing.antt =====
-- Writes to a database that refuses them all.
use mountain_king.Datasource.CircuitBreaker.{
  CircuitBreaker, circuit_closed, circuit_open, allow_request, record_failure,
}
use mountain_king.Datasource.Connection.{Adapter, Call, exec_failed, allowed, failed}
use mountain_king.Prelude.{
  ℕ, ◌+◌, ◌-◌, ◌≤◌, ◌<◌, ◌≡◌, refl, true, some, List, [], ◌∷◌, ◌++◌, All, arith, length, ap, ◌∙◌,
  subst, sym, inl, inr, ◌⊎◌, if◌then◌else◌, ltb,
}
use native.Mathlib.Decide.{dec_le}
use mountain_king.Starrocks.Adapter.{execute_write}
use mountain_king.Starrocks.Query.{Sql}

-- Writes one after the other: the statements that reach the database.
unfoldable pub write_all : List (Call × Sql) → Adapter → List Sql
unfolding execute_write
write_all [] a = []
write_all ((c, sql) ∷ writes) a =
    let run = execute_write a c sql in run.sent ++ write_all writes run.adapter

-- The breaker of an adapter that is connected, with this state, configuration and count of failures.
pub record Holds (a : Adapter) (cb : CircuitBreaker) : Type 0 where
  pub connected : a.connected ≡ true
  pub held : a.circuit_breaker ≡ some cb

-- A write that the database refuses, within `span` of the moment `start`.
pub record IsFailing (start span : ℕ) (w : Call × Sql) : Type 0 where
  pub refused : w.0.written w.1 ≡ exec_failed
  pub after : start ≤ w.0.failed_at
  pub within : w.0.allowed_at - start < span

open_sends_nothing :
    (start : ℕ) (writes : List (Call × Sql)) (a : Adapter) (cb : CircuitBreaker)
    → Holds a cb
    → cb.state ≡ circuit_open
    → start ≤ cb.opened_at
    → All (IsFailing start cb.config.open_duration) writes
    → write_all writes a ≡ []
unfolding write_all execute_write allowed allow_request
open_sends_nothing start [] a cb h opened since all = refl
open_sends_nothing start ((c, sql) ∷ writes) a cb h opened since (w, all) =
    let connected = h.connected in
    let held = h.held in
    let within = w.within in
    let ih =
      open_sends_nothing start writes (record a { circuit_breaker = some cb }) cb
        (record { connected = connected; held = refl }) opened since all in
    ground arith

closed-write :
    (c : Call) (sql : Sql) (a : Adapter) (cb : CircuitBreaker)
    → Holds a cb
    → cb.state ≡ circuit_closed
    → c.written sql ≡ exec_failed
    → ((execute_write a c sql).sent ≡ sql ∷ [])
      × Holds (execute_write a c sql).adapter (record_failure c.failed_at cb)
unfolding execute_write allowed allow_request failed
closed-write c sql a cb h closed refused =
    let connected = h.connected in let held = h.held in (ground arith, ground arith)

leb-cases : (m n : ℕ) → (m ≤ n) ⊎ (n < m)
leb-cases m n = elim (dec_le m n) [ yes h ↦ inl h | no h ↦ inr (omega arith) ]

-- A failure below the threshold, and the one that reaches it.
record_failure-below :
    (now : ℕ) (cb : CircuitBreaker)
    → cb.state ≡ circuit_closed
    → cb.failure_count + 1 < cb.config.failure_threshold
    → ((record_failure now cb).state ≡ circuit_closed)
      × ((record_failure now cb).config ≡ cb.config)
      × ((record_failure now cb).failure_count ≡ cb.failure_count + 1)
unfolding record_failure
record_failure-below now cb closed h = ground arith

record_failure-trips :
    (now : ℕ) (cb : CircuitBreaker)
    → cb.state ≡ circuit_closed
    → cb.config.failure_threshold ≤ cb.failure_count + 1
    → ((record_failure now cb).state ≡ circuit_open)
      × ((record_failure now cb).config ≡ cb.config)
      × ((record_failure now cb).opened_at ≡ now)
unfolding record_failure
record_failure-trips now cb closed h = ground arith

-- Of writes that the database all refuses, made through a closed breaker within its open duration from
-- some moment, exactly as many statements reach the database as failures are still missing to the
-- threshold: once it is reached, no further statement is sent.
pub write_all-failing :
    (start span threshold : ℕ) (writes : List (Call × Sql)) (a : Adapter) (cb : CircuitBreaker)
    → Holds a cb
    → cb.state ≡ circuit_closed
    → cb.config.open_duration ≡ span
    → cb.config.failure_threshold ≡ threshold
    → cb.failure_count < threshold
    → All (IsFailing start span) writes
    → length (write_all writes a) ≡ (
        if ltb (length writes) (threshold - cb.failure_count)
        then length writes
        else threshold - cb.failure_count)
unfolding write_all
write_all-failing start span threshold [] a cb h closed d t below all = ground arith
write_all-failing start span threshold ((c, sql) ∷ writes) a cb h closed d t below (w, all) =
    let (sent, next) = closed-write c sql a cb h closed w.refused in
    let a' = (execute_write a c sql).adapter in
    let cb' = record_failure c.failed_at cb in
    elim (leb-cases threshold (cb.failure_count + 1)) [
      | inl reached ↦
          let (opened, same, at) = record_failure-trips c.failed_at cb closed (omega arith) in
          let span_same : cb'.config.open_duration ≡ span = ap (λ k. k.open_duration) same ∙ d in
          let nothing =
            open_sends_nothing start writes a' cb' next opened (omega (arith, w.after))
              (subst (λ k. All (IsFailing start k) writes) (sym span_same) all) in
          rw sent (rw nothing (ground arith))
      | inr more ↦
          let (still, same, count) = record_failure-below c.failed_at cb closed (omega arith) in
          let ih =
            write_all-failing start span threshold writes a' cb' next still
              (ap (λ k. k.open_duration) same ∙ d) (ap (λ k. k.failure_threshold) same ∙ t)
              (omega arith) all in
          rw sent (ground (arith, ih))
    ]
