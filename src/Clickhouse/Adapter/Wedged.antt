-- ===== src/Clickhouse/Adapter/Wedged.antt =====
-- A probe that is granted to a request that is then refused before it reaches the database.
use mountain_king.Clickhouse.Adapter.{
  guarded, prepared, execute_prepared, execute, write_answer, execute_write, execute_raw,
  health_check,
}
use mountain_king.Datasource.CircuitBreaker.{
  CircuitBreaker, circuit_open, circuit_half_open, allow_request,
}
use mountain_king.Datasource.Connection.{ContextError, Adapter, Call, Ran, ran, allowed}
use mountain_king.Datasource.Request.{QueryRequest}
use mountain_king.Errors.{ApiError, err}
use mountain_king.Prelude.{
  ℕ, ◌-◌, ◌≤◌, ◌≡◌, refl, ◌∙◌, ap, Bool, true, false, none, some, Option, All, List, [], ◌∷◌, ◌++◌,
  arith,
}
use mountain_king.Starrocks.Query.{Sql}

-- What an adapter is asked for: a query, with or without its count, a write, a query of a template,
-- which does not ask the breaker, or a health check, which tells the breaker what it finds.
pub data Operation : Type 0 where
  querying : Call → Bool → QueryRequest → Operation
  writing : Call → Sql → Operation
  raw : Call → Sql → Operation
  checking : Call → Operation

unfoldable pub operate : Operation → Adapter → List Sql × Adapter
unfolding execute execute_write execute_raw health_check
operate (querying c need_count req) a =
    let run = execute a c need_count req in (run.sent, run.adapter)
operate (writing c sql) a = let run = execute_write a c sql in (run.sent, run.adapter)
operate (raw c sql) a = let run = execute_raw a c sql in (run.sent, run.adapter)
operate (checking c) a = ([], (health_check a c).0)

-- The statements that reach the database.
unfoldable pub operate_all : List Operation → Adapter → List Sql
unfolding operate
operate_all [] a = []
operate_all (o ∷ os) a = let (sent, a') = operate o a in sent ++ operate_all os a'

-- A raw query is sent, if its context has not ended before.
abbrev pub sent_unless : Option ContextError → Sql → List Sql → List Sql
sent_unless none sql rest = sql ∷ rest
sent_unless (some e) sql rest = rest

-- The statements of the queries of templates.
abbrev pub raw_statements : List Operation → List Sql
raw_statements [] = []
raw_statements (raw c sql ∷ os) = sent_unless c.context_at_start sql (raw_statements os)
raw_statements (o ∷ os) = raw_statements os

-- No health check.
abbrev pub IsRequest : Operation → Type 0
IsRequest (checking c) = ⊥
IsRequest o = Unit

-- A half-open breaker that has granted all of its probes.
pub record IsSpent (cb : CircuitBreaker) : Type 0 where
  pub state : cb.state ≡ circuit_half_open
  pub probes : cb.config.half_open_max_requests ≤ cb.half_open_requests

pub record IsWedged (a : Adapter) : Type 0 where
  pub breaker : CircuitBreaker
  pub held : a.circuit_breaker ≡ some breaker
  pub spent : IsSpent breaker
  pub connected : a.connected ≡ true

allowed-IsSpent : (now : ℕ) (cb : CircuitBreaker) → IsSpent cb → allow_request now cb ≡ (cb, false)
unfolding allow_request
allowed-IsSpent now cb h = let s = h.state in let p = h.probes in ground arith

guarded-IsWedged :
    {A : Type 0} (a : Adapter) (c : Call) (run : Adapter → Ran A)
    → IsWedged a
    → ((guarded a c run).sent ≡ []) × IsWedged (guarded a c run).adapter
unfolding guarded allowed
guarded-IsWedged a c run h =
    let e = h.held in let same = allowed-IsSpent c.allowed_at h.breaker h.spent in ground (arith)

execute_raw-sent :
    (a : Adapter) (c : Call) (sql : Sql) (ended : Option ContextError)
    → a.connected ≡ true
    → c.context_at_start ≡ ended
    → ((execute_raw a c sql).sent ≡ sent_unless ended sql []) × ((execute_raw a c sql).adapter ≡ a)
unfolding execute_raw
execute_raw-sent a c sql none connected e = ground arith
execute_raw-sent a c sql (some late) connected e = ground arith

sent_unless-append :
    (ended : Option ContextError) (sql : Sql) (rest : List Sql)
    → sent_unless ended sql [] ++ rest ≡ sent_unless ended sql rest
sent_unless-append none sql rest = refl
sent_unless-append (some e) sql rest = refl

operate_all-IsWedged :
    (os : List Operation) (a : Adapter)
    → IsWedged a
    → All IsRequest os
    → operate_all os a ≡ raw_statements os
unfolding operate_all operate execute execute_write
operate_all-IsWedged [] a h r = refl
operate_all-IsWedged (querying c need_count req ∷ os) a h (_, r) =
    let (none_sent, still) =
      guarded-IsWedged a c (λ a'. execute_prepared a' c need_count req (prepared a' req)) h in
    ap (λ sent. sent ++ operate_all os (execute a c need_count req).adapter) none_sent
    ∙ operate_all-IsWedged os _ still r
operate_all-IsWedged (writing c sql ∷ os) a h (_, r) =
    let (none_sent, still) = guarded-IsWedged a c (λ a'. write_answer a' c sql (c.written sql)) h in
    ap (λ sent. sent ++ operate_all os (execute_write a c sql).adapter) none_sent
    ∙ operate_all-IsWedged os _ still r
operate_all-IsWedged (raw c sql ∷ os) a h (_, r) =
    let (sent, same) = execute_raw-sent a c sql c.context_at_start h.connected refl in
    ap (λ s. s ++ operate_all os (execute_raw a c sql).adapter) sent
    ∙ ap (λ b. sent_unless c.context_at_start sql [] ++ operate_all os b) same
    ∙ ap (λ s. sent_unless c.context_at_start sql [] ++ s) (operate_all-IsWedged os a h r)
    ∙ sent_unless-append c.context_at_start sql (raw_statements os)
operate_all-IsWedged (checking c ∷ os) a h (bad, r) = absurd bad

probe-IsSpent :
    (now : ℕ) (cb : CircuitBreaker)
    → cb.state ≡ circuit_open
    → cb.config.half_open_max_requests ≡ 1
    → cb.config.open_duration ≤ now - cb.opened_at
    → ((allow_request now cb).1 ≡ true) × IsSpent (allow_request now cb).0
unfolding allow_request
probe-IsSpent now cb opened one elapsed = ground arith

guarded-granted :
    {A : Type 0} (a : Adapter) (cb : CircuitBreaker) (c : Call) (run : Adapter → Ran A)
    → a.connected ≡ true
    → a.circuit_breaker ≡ some cb
    → c.context_at_start ≡ none
    → (allow_request c.allowed_at cb).1 ≡ true
    → guarded a c run ≡ run (record a { circuit_breaker = some (allow_request c.allowed_at cb).0 })
unfolding guarded allowed
guarded-granted a cb c run connected held calm granted = ground arith

-- A breaker of one probe, as by default, that has been open for its duration, is asked by the next
-- query. If that query is refused before it reaches the database, since its table or one of its
-- columns is not allowed, then no query of a table and no write reaches the database until the next
-- health check, whatever they are and whenever they come: of the operations before it, only the queries
-- of templates are sent, which do not ask the breaker.
pub operate_all-refused :
    (a : Adapter) (cb : CircuitBreaker) (c : Call) (need_count : Bool) (req : QueryRequest)
    (e : ApiError) (later : List Operation)
    → a.connected ≡ true
    → a.circuit_breaker ≡ some cb
    → cb.state ≡ circuit_open
    → cb.config.half_open_max_requests ≡ 1
    → cb.config.open_duration ≤ c.allowed_at - cb.opened_at
    → c.context_at_start ≡ none
    → prepared a req ≡ err e
    → All IsRequest later
    → operate_all (querying c need_count req ∷ later) a ≡ raw_statements later
unfolding operate_all operate execute execute_prepared prepared
operate_all-refused a cb c need_count req e later connected held opened one elapsed calm refused
      requests =
    let (granted, spent) = probe-IsSpent c.allowed_at cb opened one elapsed in
    let spending = record a { circuit_breaker = some (allow_request c.allowed_at cb).0 } in
    let wedged : IsWedged spending = record {
      breaker = (allow_request c.allowed_at cb).0;
      held = refl;
      spent = spent;
      connected = connected;
    } in
    let same : execute a c need_count req ≡ ran spending (err e) [] =
      guarded-granted a cb c (λ a'. execute_prepared a' c need_count req (prepared a' req))
        connected held calm granted
      ∙ ap (execute_prepared spending c need_count req) refused in
    ap (λ r. r.sent ++ operate_all later r.adapter) same
    ∙ operate_all-IsWedged later spending wedged requests
