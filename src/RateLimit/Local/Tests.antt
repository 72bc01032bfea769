-- ===== src/RateLimit/Local/Tests.antt =====
-- A limiter with room for two clients, over buckets that count down.
use mountain_king.Prelude.{
  ℕ, zero, suc, ◌≡◌, ◌≤◌, refl, arith, Bool, true, false, List, [], ◌∷◌, codes, bytes_eq, length,
}
use mountain_king.Prelude.Int.{pos, pos_part}
use mountain_king.RateLimit.Local.{
  Buckets, KeyedRateLimiter, new_keyed_rate_limiter, allow, Event, asked, cleaned, run, step,
}
use mountain_king.RateLimit.Local.Isolated.{allow-isolated}

abbrev take : ℕ → Bool × ℕ
take zero = (false, 0)
take (suc n) = (true, n)

abbrev countdown : Buckets ℕ
countdown = record {
  fresh = λ n window. pos_part n;
  allow_n = λ now n left. take left;
  tokens_at = λ now left. pos left;
}

abbrev before : List Event
before = asked (codes "a") (pos 1) 5 ∷ asked (codes "b") (pos 1) 6 ∷ []

abbrev others : List Event
others = asked (codes "c") (pos 1) 7 ∷ asked (codes "b") (pos 1) 8 ∷ cleaned 9 ∷ []

abbrev limiter : KeyedRateLimiter ℕ
limiter = run countdown before (new_keyed_rate_limiter (pos 2) 10 (pos 2))

-- There is no room for a third client.
third_refused : (allow countdown (codes "c") (pos 1) 7 limiter).0.allowed ≡ false
unfolding allow step bytes_eq
third_refused = refl

allow-isolated_example :
    ((allow countdown (codes "a") (pos 1) 9 (run countdown others limiter)).0
      ≡ (allow countdown (codes "a") (pos 1) 9 limiter).0)
    × (length (run countdown others limiter).limiters ≤ 2)
unfolding step allow bytes_eq
allow-isolated_example =
    allow-isolated countdown (pos 2) 10 (pos 2) before others (codes "a")
      (record { limiter = 1; last_seen = 5 }) (pos 1) 9 refl (refl, (refl, (omega arith, tt)))
