-- ===== src/RateLimit/Local.antt =====
-- internal/ratelimit/local.go: `KeyedRateLimiter`. A token bucket, of the package rate, is a parameter.
-- The lock makes a list of the calls and of the rounds of the cleanup; each has its moment.
mod Bounded
mod Isolated
mod Tests
use mountain_king.Middleware.Guards.{RateLimitResult}
use mountain_king.Prelude.{
  ℕ, zero, suc, ◌+◌, ◌*◌, Bool, true, false, not, Option, none, some, List, [], ◌∷◌, Bytes,
  if◌then◌else◌, length, ltb,
}
use mountain_king.Prelude.Int.{ℤ, pos, negsuc, ltb_ℤ}
use mountain_king.Table.{Table, find, put}

-- Buckets, as the package rate has them: a new one, `AllowN`, and `TokensAt` cut to an integer.
pub record Buckets (L : Type 0) : Type 0 where
  pub fresh : (requests_per_window : ℤ) (window_size : ℕ) → L
  pub allow_n : ℕ → ℤ → L → Bool × L
  pub tokens_at : ℕ → L → ℤ

pub record LimiterEntry (L : Type 0) : Type 0 where
  pub limiter : L
  pub last_seen : ℕ

pub record KeyedRateLimiter (L : Type 0) : Type 0 where
  pub limiters : Table (LimiterEntry L)
  pub burst : ℤ
  pub max_entries : ℤ
  pub window_size : ℕ
  pub cleanup_interval : ℕ

abbrev pub new_keyed_rate_limiter : {L : Type 0} → ℤ → ℕ → ℤ → KeyedRateLimiter L
new_keyed_rate_limiter requests_per_window window_size max_entries = record {
  limiters = [];
  burst = requests_per_window;
  max_entries = max_entries;
  window_size = window_size;
  cleanup_interval = 2 * window_size;
}

-- What is left, no less than none.
abbrev pub at_least_zero : ℤ → ℤ
at_least_zero (pos n) = pos n
at_least_zero (negsuc n) = pos 0

module _ {L : Type 0} (buckets : Buckets L) where
  -- `Allow` behind the lookup of the entry.
  unfoldable pub use_entry :
      Bytes → ℤ → ℕ → L → KeyedRateLimiter L → RateLimitResult × KeyedRateLimiter L
  unfolding put
  use_entry key count now limiter krl =
      let (allowed, limiter') = buckets.allow_n now count limiter in
      (
        record {
          allowed = allowed;
          limit = krl.burst;
          remaining = at_least_zero (buckets.tokens_at now limiter');
          reset_at = pos (now + krl.window_size);
        },
        record krl {
          limiters = put key (record { limiter = limiter'; last_seen = now }) krl.limiters;
        },
      )

  -- With the entry that the key has, if any.
  unfoldable pub allow_found :
      Bytes
      → ℤ
      → ℕ
      → KeyedRateLimiter L
      → Option (LimiterEntry L)
      → RateLimitResult × KeyedRateLimiter L
  unfolding use_entry
  allow_found key count now krl none =
      if not (ltb_ℤ (pos (length krl.limiters)) krl.max_entries)
      then (
        record {
          allowed = false;
          limit = krl.burst;
          remaining = pos 0;
          reset_at = pos (now + krl.window_size);
        },
        krl,
      )
      else use_entry key count now (buckets.fresh krl.burst krl.window_size) krl
  allow_found key count now krl (some entry) = use_entry key count now entry.limiter krl

  unfoldable pub allow : Bytes → ℤ → ℕ → KeyedRateLimiter L → RateLimitResult × KeyedRateLimiter L
  unfolding find allow_found
  allow key count now krl = allow_found key count now krl (find key krl.limiters)

-- A round of `startCleanup`.
unfoldable pub drop_stale : {L : Type 0} → ℕ → ℕ → Table (LimiterEntry L) → Table (LimiterEntry L)
drop_stale now interval [] = []
drop_stale now interval ((key, entry) ∷ t) =
    let rest = drop_stale now interval t in
    if ltb (entry.last_seen + interval) now then rest else (key, entry) ∷ rest

unfoldable pub cleanup : {L : Type 0} → ℕ → KeyedRateLimiter L → KeyedRateLimiter L
unfolding drop_stale
cleanup now krl = record krl { limiters = drop_stale now krl.cleanup_interval krl.limiters }

-- What happens to a limiter: requests and rounds of the cleanup.
pub data Event : Type 0 where
  asked : (key : Bytes) → (count : ℤ) → (now : ℕ) → Event
  cleaned : (now : ℕ) → Event

module _ {L : Type 0} (buckets : Buckets L) where
  unfoldable pub step : Event → KeyedRateLimiter L → KeyedRateLimiter L
  unfolding allow cleanup
  step (asked key count now) krl = (allow buckets key count now krl).1
  step (cleaned now) krl = cleanup now krl

  abbrev pub run : List Event → KeyedRateLimiter L → KeyedRateLimiter L
  run [] krl = krl
  run (event ∷ events) krl = run events (step event krl)
