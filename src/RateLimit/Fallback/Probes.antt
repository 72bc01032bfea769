-- ===== src/RateLimit/Fallback/Probes.antt =====
-- When a limiter comes back from the local to the distributed limiter, and when it does not.
use mountain_king.Prelude.{◌+◌, ◌≤◌, ◌⊎◌, inl, inr, Bool, true, false, ◌≡◌, refl, arith}
use mountain_king.RateLimit.Fallback.{
  local, FallbackRateLimiter, new_fallback_rate_limiter, start_recovery_probe, allow, tick,
  reset_once, Step, request, ticked, ended, stop, quit, stopping, quitting, Steps, here, then_step,
}

-- How many probes there are: never more than one, only while the once has run, and, if the limiter was
-- not stopped, always while the once has run.
pub record IsOnce (frl : FallbackRateLimiter) : Type 0 where
  pub most : frl.ticking + frl.recovering ≤ 1
  pub once : (frl.ticking + frl.recovering ≡ 0) ⊎ (frl.once_done ≡ true)
  pub kept : (frl.stopped ≡ true) ⊎ (frl.once_done ≡ false) ⊎ (frl.ticking + frl.recovering ≡ 1)

step-IsOnce : {a b : FallbackRateLimiter} → Step a b → IsOnce a → IsOnce b
unfolding allow tick reset_once start_recovery_probe stop quit
step-IsOnce (request {frl} primary_fails) h =
    let m = h.most in
    let o = h.once in
    let k = h.kept in record { most = grind arith; once = grind arith; kept = grind arith }
step-IsOnce (ticked {frl} answers) h =
    let m = h.most in
    let o = h.once in
    let k = h.kept in record { most = grind arith; once = grind arith; kept = grind arith }
step-IsOnce (ended {frl}) h =
    let m = h.most in
    let o = h.once in
    let k = h.kept in record { most = grind arith; once = grind arith; kept = grind arith }
step-IsOnce (stopping {frl}) h =
    let m = h.most in
    let o = h.once in let k = h.kept in record { most = m; once = o; kept = inl refl }
step-IsOnce (quitting {frl}) h =
    let m = h.most in
    let o = h.once in
    let k = h.kept in record { most = grind arith; once = grind arith; kept = grind arith }

-- In whatever order requests, probes and the stop take their steps, there is never more than one probe,
-- and one is there only while `probeOnce` has run. Until the limiter is stopped, one is there whenever
-- `probeOnce` has run; after it, the once may have run with no probe left.
pub Steps-IsOnce : (frl : FallbackRateLimiter) → Steps new_fallback_rate_limiter frl → IsOnce frl
Steps-IsOnce frl here = record {
  most = omega arith;
  once = inl (omega arith);
  kept = inr (inl refl);
}
Steps-IsOnce frl (then_step {b} steps step) = step-IsOnce step (Steps-IsOnce b steps)

-- On the local limiter, with no probe.
abbrev pub stranded : FallbackRateLimiter
stranded = record {
  use_fallback = true;
  once_done = false;
  ticking = 0;
  recovering = 0;
  stopped = false;
}

-- A request whose distributed limiter fails between the two ends of a probe.
Steps-stranded : Steps new_fallback_rate_limiter stranded
unfolding allow tick reset_once start_recovery_probe
Steps-stranded =
    then_step (then_step (then_step (then_step here (request true)) (ticked true)) (request true))
      ended

-- On the local limiter, with no probe, stopped or not.
record IsStranded (frl : FallbackRateLimiter) : Type 0 where
  pub falls_back : frl.use_fallback ≡ true
  pub none_ticking : frl.ticking ≡ 0
  pub none_recovering : frl.recovering ≡ 0

step-IsStranded : {a b : FallbackRateLimiter} → Step a b → IsStranded a → IsStranded b
unfolding allow tick reset_once stop quit
step-IsStranded (request {frl} primary_fails) h =
    let f = h.falls_back in
    let t = h.none_ticking in
    let r = h.none_recovering in
    record {
      falls_back = ground arith;
      none_ticking = ground arith;
      none_recovering = ground arith;
    }
step-IsStranded (ticked {frl} answers) h =
    let f = h.falls_back in
    let t = h.none_ticking in
    let r = h.none_recovering in
    record {
      falls_back = ground arith;
      none_ticking = ground arith;
      none_recovering = ground arith;
    }
step-IsStranded (ended {frl}) h =
    let f = h.falls_back in
    let t = h.none_ticking in
    let r = h.none_recovering in
    record {
      falls_back = ground arith;
      none_ticking = ground arith;
      none_recovering = ground arith;
    }
step-IsStranded (stopping {frl}) h = record {
  falls_back = h.falls_back;
  none_ticking = h.none_ticking;
  none_recovering = h.none_recovering;
}
step-IsStranded (quitting {frl}) h =
    let f = h.falls_back in
    let t = h.none_ticking in
    let r = h.none_recovering in
    record {
      falls_back = ground arith;
      none_ticking = ground arith;
      none_recovering = ground arith;
    }

Steps-IsStranded : {a b : FallbackRateLimiter} → Steps a b → IsStranded a → IsStranded b
Steps-IsStranded here h = h
Steps-IsStranded (then_step steps step) h = step-IsStranded step (Steps-IsStranded steps h)

-- The limiter can come to a state from which it never goes back: a request that finds the distributed
-- limiter failing after the probe has stored `false` and before it has reset the once starts no probe,
-- and from then on, in whatever order further steps are taken, the local limiter decides on every
-- request, even with Redis back.
pub Steps-local :
    (later : FallbackRateLimiter) (primary_fails : Bool)
    → Steps stranded later
    → Steps new_fallback_rate_limiter stranded × ((allow primary_fails later).0 ≡ local)
unfolding allow
Steps-local later primary_fails steps =
    let still =
      Steps-IsStranded steps
        (record { falls_back = refl; none_ticking = refl; none_recovering = refl }) in
    let falls_back = still.falls_back in (Steps-stranded, rw falls_back refl)
