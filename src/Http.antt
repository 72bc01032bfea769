-- ===== src/Http.antt =====
-- What the package net/http hands to handlers, and the handlers of internal/middleware and
-- cmd/server/main.go: functions over a world of the state that they share.
use mountain_king.Errors.{Code}
use mountain_king.Middleware.AuthFailureLimiter.{AuthFailureLimiter}
use mountain_king.Middleware.Authz.{AuthIdentity}
use mountain_king.Prelude.{ℕ, Option, some, List, [], ◌∷◌, Bytes}
use mountain_king.Prelude.Int.{ℤ}

-- `header` is `r.Header.Get`, which is the empty text for a header that is not there; `identity` and
-- `batch_count` are the values of the context.
pub record Request : Type 0 where
  pub path : Bytes
  pub method : Bytes
  pub header : Bytes → Bytes
  pub remote_addr : Bytes
  pub client_ip : Bytes
  pub identity : Option AuthIdentity
  pub batch_count : Option ℤ

-- A response without its body, but for the code of an error.
pub record Response : Type 0 where
  pub status : ℕ
  pub code : Option Code
  pub headers : List (Bytes × Bytes)

-- The state of the rate limiter, the failures of authentication, the places that are taken in the
-- semaphore, and the requests that the router was handed.
pub record World (L : Type 0) : Type 0 where
  pub limiter : L
  pub failures : AuthFailureLimiter
  pub in_flight : ℕ
  pub served : List Request

abbrev pub Handler : Type 0 → Type 0
Handler L = Request → World L → Response × World L

abbrev pub refusal : ℕ → Code → Response
refusal status code = record { status = status; code = some code; headers = [] }

abbrev pub with_header : Bytes → Bytes → Response → Response
with_header name value response = record response { headers = (name, value) ∷ response.headers }
