-- ===== src/Server/Batch.antt =====
-- internal/server/batch.go: a batch of GraphQL requests. The package encoding/json takes the body apart;
-- the handler behind is a function from the body of a request to that of its answer. The goroutines of a
-- batch each write their own place of the results.
mod Ordered
mod Tests
use mountain_king.Errors.{
  Code, Result, ok, err, validation_error, err_validation_invalid_body,
  err_validation_batch_limit_exceeded,
}
use mountain_king.Prelude.{
  ℕ, zero, suc, Bool, true, false, ◌||◌, Option, none, some, List, [], ◌∷◌, Bytes, ◌==◌,
  if◌then◌else◌, length, ltb, replicate,
}
use mountain_king.Prelude.Int.{ℤ, pos, negsuc}

-- `NewBatchHandler`.
unfoldable pub batch_limit : ℤ → ℕ
batch_limit (pos zero) = 10
batch_limit (pos (suc n)) = suc n
batch_limit (negsuc n) = 10

unfoldable pub is_batch_request : Bytes → Bool
is_batch_request [] = false
is_batch_request (b ∷ body) =
    let rest = is_batch_request body in
    if b == b' ' || (b == 9 || (b == 10 || b == 13)) then rest else b == b'['

-- `results[idx] = …`.
unfoldable pub set_result : List Bytes → ℕ → Bytes → List Bytes
set_result [] idx result = []
set_result (r ∷ rs) zero result = result ∷ rs
set_result (r ∷ rs) (suc idx) result = r ∷ set_result rs idx result

-- The goroutines, in the order in which they end: the places of the queries that they run.
unfoldable pub finish_all : (ℕ → Bytes) → List ℕ → List Bytes → List Bytes
unfolding set_result
finish_all result_at [] results = results
finish_all result_at (idx ∷ order) results =
    finish_all result_at order (set_result results idx (result_at idx))

-- An answer: the body of a single request, the bodies of a batch in their order.
pub data Answer : Type 0 where
  single : Bytes → Answer
  batch : List Bytes → Answer

-- The body of the query at a place; there is one at each place that a goroutine has.
abbrev pub query_at : List Bytes → ℕ → Bytes
query_at [] i = []
query_at (q ∷ queries) zero = q
query_at (q ∷ queries) (suc i) = query_at queries i

unfoldable pub run_batch : ℤ → (ℕ → Bytes → Bytes) → List ℕ → Option (List Bytes) → Result Answer
unfolding batch_limit finish_all
run_batch max next order none = validation_error err_validation_invalid_body
run_batch max next order (some []) = ok (batch [])
run_batch max next order (some (q ∷ queries)) =
    let count = length (q ∷ queries) in
    if ltb (batch_limit max) count
    then validation_error err_validation_batch_limit_exceeded
    else ok
        (batch (finish_all (λ i. next count (query_at (q ∷ queries) i)) order (replicate count [])))

-- `ServeHTTP`: `parse` makes the queries of a body that is a JSON array; `next count body` is the handler
-- behind, with the number of queries in its context.
unfoldable pub serve_http :
    ℤ → (Bytes → Option (List Bytes)) → (ℕ → Bytes → Bytes) → List ℕ → Option Bytes → Result Answer
unfolding is_batch_request run_batch
serve_http max parse next order none = validation_error err_validation_invalid_body
serve_http max parse next order (some body) =
    if is_batch_request body
    then run_batch max next order (parse body)
    else ok (single (next 1 body))
