-- ===== src/RateLimit/Fallback.antt =====
-- internal/ratelimit/fallback.go: `FallbackRateLimiter`. The distributed and the local limiter are
-- parameters of a step. A request is one step, and so is each of the two writes with which a
-- goroutine of the recovery probe ends, and its return after `Stop`; the steps come in any order.
pub mod Probes
mod Tests
use mountain_king.Prelude.{ℕ, ◌+◌, ◌-◌, leb, ◌&&◌, Bool, true, false, ◌≡◌, if◌then◌else◌}

-- The goroutines of the recovery probe are counted: those that wait for their ticker, and those between
-- `useFallback.Store(false)` and the reset of `probeOnce`.
pub record FallbackRateLimiter : Type 0 where
  pub use_fallback : Bool
  -- Whether `probeOnce` has run its function.
  pub once_done : Bool
  pub ticking : ℕ
  pub recovering : ℕ
  -- Whether `stopCh` is closed.
  pub stopped : Bool

abbrev pub new_fallback_rate_limiter : FallbackRateLimiter
new_fallback_rate_limiter = record {
  use_fallback = false;
  once_done = false;
  ticking = 0;
  recovering = 0;
  stopped = false;
}

-- Which of the limiters decides on a request.
pub data Decides : Type 0 where
  primary local : Decides

unfoldable pub start_recovery_probe : FallbackRateLimiter → FallbackRateLimiter
start_recovery_probe frl =
    if frl.once_done then frl else record frl { once_done = true; ticking = frl.ticking + 1 }

-- `Allow`, with whether the distributed limiter fails.
unfoldable pub allow : Bool → FallbackRateLimiter → Decides × FallbackRateLimiter
unfolding start_recovery_probe
allow primary_fails frl =
    if frl.use_fallback
    then (local, frl)
    else if primary_fails
    then (local, start_recovery_probe (record frl { use_fallback = true }))
    else (primary, frl)

-- A tick of a probe, with whether Redis answers.
unfoldable pub tick : Bool → FallbackRateLimiter → FallbackRateLimiter
tick answers frl =
    if leb 1 frl.ticking && answers
    then record frl {
      use_fallback = false;
      ticking = frl.ticking - 1;
      recovering = frl.recovering + 1;
    }
    else frl

-- The end of a probe: `probeOnce = sync.Once{}`.
unfoldable pub reset_once : FallbackRateLimiter → FallbackRateLimiter
reset_once frl =
    if leb 1 frl.recovering
    then record frl { once_done = false; recovering = frl.recovering - 1 }
    else frl

-- `Stop`, and the return of a probe that sees it.
unfoldable pub stop : FallbackRateLimiter → FallbackRateLimiter
stop frl = record frl { stopped = true }

unfoldable pub quit : FallbackRateLimiter → FallbackRateLimiter
quit frl = if frl.stopped then record frl { ticking = frl.ticking - 1 } else frl

-- The steps that a limiter takes.
pub data Step : FallbackRateLimiter → FallbackRateLimiter → Type 0 where
  request :
      {frl : FallbackRateLimiter} (primary_fails : Bool) → Step frl (allow primary_fails frl).1
  ticked : {frl : FallbackRateLimiter} (answers : Bool) → Step frl (tick answers frl)
  ended : {frl : FallbackRateLimiter} → Step frl (reset_once frl)
  stopping : {frl : FallbackRateLimiter} → Step frl (stop frl)
  quitting : {frl : FallbackRateLimiter} → Step frl (quit frl)

-- Any number of steps.
pub data Steps : FallbackRateLimiter → FallbackRateLimiter → Type 0 where
  here : {a : FallbackRateLimiter} → Steps a a
  then_step : {a b c : FallbackRateLimiter} → Steps a b → Step b c → Steps a c
