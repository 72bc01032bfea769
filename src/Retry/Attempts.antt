-- ===== src/Retry/Attempts.antt =====
-- How often `Do` calls its function, and with what it returns.
use mountain_king.Prelude.{
  ℕ, zero, suc, ◌+◌, ◌-◌, ◌≤◌, ◌<◌, ◌≡◌, refl, ap, ◌∙◌, Bool, true, false, some, List, [], ◌∷◌,
  arith, ◌⊎◌, if◌then◌else◌,
}
use mountain_king.Prelude.Int.{ℤ, pos, negsuc}
use mountain_king.Retry.{
  Error, is_business, Config, Outcome, success, failure, Returned, returned, business, exhausted,
  backoff, attempts, retry_do,
}

-- The waits before the call `k`, last first.
unfoldable pub backoffs : Config → ℕ → List ℕ
backoffs cfg zero = []
backoffs cfg (suc k) = backoff cfg k ∷ backoffs cfg k

-- A call that is not repeated, and what `Do` returns for it.
unfoldable pub settles {ℓ} : {T : Type ℓ} → Outcome T → Bool
settles (success r) = true
settles (failure e) = is_business (some e)

unfoldable pub verdict {ℓ} : {T : Type ℓ} → Outcome T → Returned T
verdict (success r) = returned r
verdict (failure e) = if is_business (some e) then business e else exhausted e

module _ {ℓ} {T : Type ℓ} (cfg : Config) (fn : ℕ → Outcome T) (done : ℕ → Bool) where
  -- The call `i` fails with a transient error, and the wait after it passes.
  pub record IsRetried (i : ℕ) : Type ℓ where
    pub error : Error
    pub failed : fn i ≡ failure error
    pub transient : is_business (some error) ≡ false
    pub waited : done i ≡ false

  calls_bound :
      (left attempt : ℕ) (waits : List ℕ)
      → (attempt < (attempts cfg fn done left attempt waits).calls)
        × ((attempts cfg fn done left attempt waits).calls ≤ attempt + left + 1)
  unfolding attempts
  calls_bound zero attempt waits = ground arith
  calls_bound (suc left) attempt waits =
      ground (arith, calls_bound left (suc attempt) (backoff cfg attempt ∷ waits))

  -- The calls that a maximum of retries allows: none below 0, else one or more, up to one more than
  -- the maximum.
  abbrev pub IsCalled : ℤ → ℕ → Type 0
  IsCalled (pos n) calls = (1 ≤ calls) × (calls ≤ n + 1)
  IsCalled (negsuc n) calls = calls ≡ 0

  bounded : (max : ℤ) → cfg.max_retries ≡ max → IsCalled max (retry_do cfg fn done).calls
  unfolding retry_do
  bounded (pos n) e = ground (arith, calls_bound n 0 [])
  bounded (negsuc n) e = ground arith

  -- With a maximum of retries that is not negative, `Do` calls its function at least once and at most
  -- one time more than the maximum; with a negative maximum it never calls it.
  pub calls-retry_do : IsCalled cfg.max_retries (retry_do cfg fn done).calls
  calls-retry_do = bounded cfg.max_retries refl

  started : (n : ℕ) → cfg.max_retries ≡ pos n → retry_do cfg fn done ≡ attempts cfg fn done n 0 []
  unfolding retry_do
  started n e = ground arith

  at_decided :
      (left attempt : ℕ) (waits : List ℕ)
      → (left ≡ 0) ⊎ (settles (fn attempt) ≡ true)
      → attempts cfg fn done left attempt waits
        ≡ record { result = verdict (fn attempt); calls = attempt + 1; waits = waits }
  unfolding attempts settles verdict
  at_decided zero attempt waits h = ground arith
  at_decided (suc left) attempt waits h = ground arith

  retried :
      (left attempt : ℕ) (waits : List ℕ)
      → IsRetried attempt
      → attempts cfg fn done (suc left) attempt waits
        ≡ attempts cfg fn done left (suc attempt) (backoff cfg attempt ∷ waits)
  unfolding attempts
  retried left attempt waits r = ground arith

  skip :
      (k left : ℕ)
      → ((i : ℕ) → i < k → IsRetried i)
      → attempts cfg fn done (k + left) 0 [] ≡ attempts cfg fn done left k (backoffs cfg k)
  unfolding backoffs
  skip zero left h = ap (λ n. attempts cfg fn done n 0 []) (omega arith)
  skip (suc k) left h =
      ap (λ n. attempts cfg fn done n 0 []) (omega arith)
      ∙ skip k (suc left) (λ i lt. h i (omega arith))
      ∙ retried left k (backoffs cfg k) (h k (omega arith))

  -- After `k` calls that are retried, at most the maximum, a call `k` that settles the run, or is the
  -- last one allowed, decides it: the result, the business error or the exhaustion is that of this
  -- call, there were `k + 1` calls, and the waits are the backoffs of the `k` before it.
  pub retry_do_decided :
      (n k : ℕ)
      → cfg.max_retries ≡ pos n
      → k ≤ n
      → ((i : ℕ) → i < k → IsRetried i)
      → (k ≡ n) ⊎ (settles (fn k) ≡ true)
      → retry_do cfg fn done
        ≡ record { result = verdict (fn k); calls = k + 1; waits = backoffs cfg k }
  retry_do_decided n k m le h decided =
      let last : (n - k ≡ 0) ⊎ (settles (fn k) ≡ true) = ground arith in
      started n m
      ∙ ap (λ j. attempts cfg fn done j 0 []) (omega arith)
      ∙ skip k (n - k) h
      ∙ at_decided (n - k) k (backoffs cfg k) last
