-- ===== src/RateLimit/Fallback/Tests.antt =====
-- Steps of a limiter.
use mountain_king.Prelude.{true, false, ◌≡◌, refl}
use mountain_king.RateLimit.Fallback.{
  FallbackRateLimiter, new_fallback_rate_limiter, local, allow, Steps, here, then_step, request,
  ticked, start_recovery_probe, tick,
}
use mountain_king.RateLimit.Fallback.Probes.{IsOnce, Steps-IsOnce, stranded, Steps-local}

falls_back : (allow true new_fallback_rate_limiter).0 ≡ local
unfolding allow
falls_back = refl

abbrev probing : FallbackRateLimiter
probing = record {
  use_fallback = true;
  once_done = true;
  ticking = 1;
  recovering = 0;
  stopped = false;
}

Steps-IsOnce_example : IsOnce probing
unfolding allow tick start_recovery_probe
Steps-IsOnce_example =
    Steps-IsOnce probing (then_step (then_step here (request true)) (ticked false))

Steps-local_example : Steps new_fallback_rate_limiter stranded × ((allow false stranded).0 ≡ local)
unfolding allow tick
Steps-local_example =
    Steps-local stranded false (then_step (then_step here (request true)) (ticked true))
