-- ===== src/Retry.antt =====
-- pkg/retry: calls that are made again after transient errors.
mod Attempts
mod Tests
use mountain_king.Prelude.{
  ℕ, zero, suc, ◌+◌, ◌*◌, ◌^◌, Bool, true, false, not, ◌||◌, Option, none, some, List, [], ◌∷◌,
  ◌==◌, if◌then◌else◌, ◌%◌,
}
use mountain_king.Prelude.Int.{ℤ, pos, negsuc}

-- What the tests of classifier.go find in an error: `errors.Is(err, io.EOF)` or `io.ErrUnexpectedEOF`,
-- an `Errno` in its chain that is ECONNREFUSED or ECONNRESET, a `net.Error` with `Timeout()`.
pub record Error : Type 0 where
  pub is_eof : Bool
  pub is_refused_or_reset : Bool
  pub is_timeout : Bool
  pub id : ℕ

-- An error value; `none` is nil.
unfoldable pub is_transient : Option Error → Bool
is_transient none = false
is_transient (some e) = e.is_eof || (e.is_refused_or_reset || e.is_timeout)

unfoldable pub is_business : Option Error → Bool
unfolding is_transient
is_business none = false
is_business (some e) = not (is_transient (some e))

pub record Config : Type 0 where
  pub max_retries : ℤ
  pub retry_interval : ℕ

-- A result or an error.
pub data Outcome {ℓ} (T : Type ℓ) : Type ℓ where
  success : T → Outcome T
  failure : Error → Outcome T

-- How `Do` ends: with a result, with the error of the last call as it is or as that of exhausted
-- retries, with the error of the context, or behind a loop that made no round.
pub data Returned {ℓ} (T : Type ℓ) : Type ℓ where
  returned : T → Returned T
  business : Error → Returned T
  exhausted : Error → Returned T
  cancelled : Returned T
  unexpected : Returned T

-- A run: how it ends, the number of calls of `fn`, and the waits before retries, last first.
pub record Run {ℓ} (T : Type ℓ) : Type ℓ where
  pub result : Returned T
  pub calls : ℕ
  pub waits : List ℕ

-- `cfg.RetryInterval * (1 << uint(attempt))`, as the bit pattern of an int64.
unfoldable pub backoff : Config → ℕ → ℕ
backoff cfg attempt = cfg.retry_interval * (2 ^ attempt % 2 ^ 64) % 2 ^ 64

module _ {ℓ} {T : Type ℓ} (cfg : Config) (fn : ℕ → Outcome T) (done : ℕ → Bool) where
  -- The loop: `left` is `MaxRetries - attempt`, `fn attempt` the result of the call, and `done attempt`
  -- tells whether the context ends before the wait that follows it is over.
  unfoldable pub attempts : ℕ → ℕ → List ℕ → Run T
  unfolding is_business
  attempts zero attempt waits = elim (fn attempt) [
    | success r ↦ record { result = returned r; calls = attempt + 1; waits = waits }
    | failure e ↦
        if is_business (some e)
        then record { result = business e; calls = attempt + 1; waits = waits }
        else record { result = exhausted e; calls = attempt + 1; waits = waits }
  ]
  attempts (suc left) attempt waits =
      let next = attempts left (suc attempt) (backoff cfg attempt ∷ waits) in
      elim (fn attempt) [
        | success r ↦ record { result = returned r; calls = attempt + 1; waits = waits }
        | failure e ↦
            if is_business (some e)
            then record { result = business e; calls = attempt + 1; waits = waits }
            else if done attempt
            then record { result = cancelled; calls = attempt + 1; waits = waits }
            else next
      ]

  -- `Do`.
  unfoldable pub retry_do : Run T
  unfolding attempts
  retry_do = elim cfg.max_retries [
    | pos n ↦ attempts n 0 []
    | negsuc n ↦ record { result = unexpected; calls = 0; waits = [] }
  ]
