-- ===== src/Server/Batch/Tests.antt =====
-- Batches of two queries.
use mountain_king.Errors.{ok, validation_error, err_validation_batch_limit_exceeded}
use mountain_king.Prelude.{
  ℕ, zero, suc, ◌≡◌, refl, arith, Option, some, List, [], ◌∷◌, Bytes, codes, map,
}
use mountain_king.Prelude.Int.{pos}
use mountain_king.Server.Batch.{batch, serve_http, is_batch_request, batch_limit}
use mountain_king.Server.Batch.Ordered.{IsComplete, serve_http-ordered}

abbrev parse : Bytes → Option (List Bytes)
parse body = some (codes "a" ∷ codes "b" ∷ [])

abbrev echo : ℕ → Bytes → Bytes
echo count query = count ∷ query

too_many :
    serve_http (pos 1) parse echo [] (some (codes " [a, b]"))
    ≡ validation_error err_validation_batch_limit_exceeded
unfolding serve_http
too_many = refl

complete : IsComplete (1 ∷ 0 ∷ []) 2
complete zero h = refl
complete (suc zero) h = refl
complete (suc (suc i)) h = absurd (omega arith)

serve_http-ordered_example :
    serve_http (pos 0) parse echo (1 ∷ 0 ∷ []) (some (codes " [a, b]"))
    ≡ ok (batch (map (echo 2) (codes "a" ∷ codes "b" ∷ [])))
unfolding is_batch_request batch_limit
serve_http-ordered_example =
    serve_http-ordered (pos 0) parse echo (1 ∷ 0 ∷ []) (codes " [a, b]")
      (codes "a" ∷ codes "b" ∷ []) refl refl (omega arith) complete
