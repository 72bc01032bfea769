-- ===== src/Retry/Tests.antt =====
-- A call that fails twice and then succeeds.
use mountain_king.Prelude.{
  ℕ, ◌+◌, ◌≤◌, ◌<◌, ◌≡◌, refl, Bool, true, false, [], ◌∷◌, arith, ltb, if◌then◌else◌, inr,
}
use mountain_king.Prelude.Int.{pos}
use mountain_king.Retry.{
  Error, is_business, Config, Outcome, success, failure, returned, backoff, retry_do,
}
use mountain_king.Retry.Attempts.{
  IsRetried, backoffs, calls-retry_do, retry_do_decided, verdict, settles,
}

abbrev config : Config
config = record { max_retries = pos 3; retry_interval = 100 }

abbrev timeout : Error
timeout = record { is_eof = false; is_refused_or_reset = false; is_timeout = true; id = 1 }

abbrev flaky : ℕ → Outcome ℕ
flaky i = if ltb i 2 then failure timeout else success 7

abbrev never : ℕ → Bool
never i = false

third_call :
    retry_do config flaky never ≡ record { result = returned 7; calls = 3; waits = 200 ∷ 100 ∷ [] }
unfolding retry_do backoff
third_call = refl

calls-retry_do_example :
    (1 ≤ (retry_do config flaky never).calls) × ((retry_do config flaky never).calls ≤ 3 + 1)
calls-retry_do_example = calls-retry_do config flaky never

flaky-IsRetried : (i : ℕ) → i < 2 → IsRetried config flaky never i
unfolding is_business
flaky-IsRetried i lt = record {
  error = timeout;
  failed = ground arith;
  transient = refl;
  waited = refl;
}

retry_do_decided_example :
    retry_do config flaky never
    ≡ record { result = returned 7; calls = 2 + 1; waits = backoffs config 2 }
unfolding verdict settles
retry_do_decided_example =
    retry_do_decided config flaky never 3 2 refl (omega arith) flaky-IsRetried (inr refl)
