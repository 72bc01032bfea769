-- ===== src/Clickhouse/Adapter.antt =====
-- internal/adapter/clickhouse/adapter.go: the calls of an adapter. The package database/sql is what a
-- call meets; logs are left out.
pub mod Connect
mod Wedged
mod Tests
use mountain_king.Clickhouse.Query.{build, build_count}
use mountain_king.Datasource.Connection.{
  Adapter, ContextError, deadline_exceeded, canceled, Rows, query_failed, scan_failed, scanned,
  Written, exec_failed, affected_failed, affected, Call, QueryResult, Ran, ran, allowed, succeeded,
  failed, extract_table,
}
use mountain_king.Datasource.CircuitBreaker.{CircuitBreaker}
use mountain_king.Datasource.Request.{QueryRequest}
use mountain_king.Errors.{
  Result, ok, err, ◌>>=◌, datasource_error, err_datasource_unavailable, err_datasource_timeout,
  err_datasource_circuit_open, err_datasource_query_error, err_datasource_template_query_error,
}
use mountain_king.Prelude.{
  Bool, true, false, not, Option, none, some, List, [], ◌∷◌, Bytes, if◌then◌else◌,
}
use mountain_king.Prelude.Int.{ℤ}
use mountain_king.Starrocks.Query.{Sql}
use mountain_king.Value.{Fields}

abbrev pub unavailable : {A : Type 0} → Result A
unavailable = datasource_error err_datasource_unavailable

unfoldable pub context_error : {A : Type 0} → ContextError → Result A
context_error deadline_exceeded = datasource_error err_datasource_timeout
context_error canceled = unavailable

-- The error of a context if it has one, and else one of the database.
unfoldable pub failure_error : {A : Type 0} → Option ContextError → Result A → Result A
unfolding context_error
failure_error none answer = answer
failure_error (some e) answer = context_error e

abbrev pub query_error : {A : Type 0} → Result A
query_error = datasource_error err_datasource_query_error

-- Behind the rows: the count.
unfoldable pub execute_count :
    Adapter → Call → Bool → QueryRequest → Bytes → Sql → List Fields → Ran QueryResult
unfolding failure_error build_count
execute_count a c need_count req table sql rows =
    if not need_count
    then ran a (ok (record { data_rows = rows; total_count = none })) (sql ∷ [])
    else elim (build_count a.query_builder req table) [
      | err e ↦ ran a (err e) (sql ∷ [])
      | ok counting ↦ elim (c.count counting) [
        | none ↦ ran a (failure_error c.context_after query_error) (sql ∷ counting ∷ [])
        | some n ↦
            ran a (ok (record { data_rows = rows; total_count = some n })) (sql ∷ counting ∷ [])
      ]
    ]

-- On what the query yields. A failed scan is told to nobody but the caller.
unfoldable pub execute_rows :
    Adapter → Call → Bool → QueryRequest → Bytes → Sql → Rows → Ran QueryResult
unfolding failure_error execute_count failed succeeded
execute_rows a c need_count req table sql query_failed =
    ran (record a { circuit_breaker = failed c.failed_at a.circuit_breaker })
      (failure_error c.context_after query_error) (sql ∷ [])
execute_rows a c need_count req table sql scan_failed = ran a query_error (sql ∷ [])
execute_rows a c need_count req table sql (scanned rows) =
    execute_count (record a { circuit_breaker = succeeded a.circuit_breaker }) c need_count req
      table sql rows

unfoldable pub prepared : Adapter → QueryRequest → Result (Bytes × Sql)
unfolding extract_table build
prepared a req = do
  table ← extract_table req.options
  sql ← build a.query_builder req table
  ok (table, sql)

unfoldable pub execute_prepared :
    Adapter → Call → Bool → QueryRequest → Result (Bytes × Sql) → Ran QueryResult
unfolding execute_rows
execute_prepared a c need_count req (err e) = ran a (err e) []
execute_prepared a c need_count req (ok (table, sql)) =
    execute_rows a c need_count req table sql (c.rows sql)

-- The tests in front of every statement that the breaker guards, and what they let through.
unfoldable pub guarded : {A : Type 0} → Adapter → Call → (Adapter → Ran A) → Ran A
unfolding allowed context_error
guarded a c run =
    let (cb, granted) = allowed c.allowed_at a.circuit_breaker in
    if not a.connected then ran a unavailable [] else elim c.context_at_start [
      | some e ↦ ran a (context_error e) []
      | none ↦
          if not granted
          then ran (record a { circuit_breaker = cb })
              (datasource_error err_datasource_circuit_open) []
          else run (record a { circuit_breaker = cb })
    ]

unfoldable pub execute : Adapter → Call → Bool → QueryRequest → Ran QueryResult
unfolding guarded prepared execute_prepared
execute a c need_count req =
    guarded a c (λ a'. execute_prepared a' c need_count req (prepared a' req))

unfoldable pub write_answer : Adapter → Call → Sql → Written → Ran ℤ
unfolding failure_error failed succeeded
write_answer a c sql exec_failed =
    ran (record a { circuit_breaker = failed c.failed_at a.circuit_breaker })
      (failure_error c.context_after query_error) (sql ∷ [])
write_answer a c sql affected_failed =
    ran (record a { circuit_breaker = succeeded a.circuit_breaker }) query_error (sql ∷ [])
write_answer a c sql (affected n) =
    ran (record a { circuit_breaker = succeeded a.circuit_breaker }) (ok n) (sql ∷ [])

unfoldable pub execute_write : Adapter → Call → Sql → Ran ℤ
unfolding guarded write_answer
execute_write a c sql = guarded a c (λ a'. write_answer a' c sql (c.written sql))

abbrev template_error : {A : Type 0} → Result A
template_error = datasource_error err_datasource_template_query_error

unfoldable pub raw_answer : Call → Rows → Result (List Fields)
unfolding failure_error
raw_answer c query_failed = failure_error c.context_after template_error
raw_answer c scan_failed = template_error
raw_answer c (scanned rows) = ok rows

-- `ExecuteRaw`, which does not ask the breaker.
unfoldable pub execute_raw : Adapter → Call → Sql → Ran (List Fields)
unfolding context_error raw_answer
execute_raw a c sql = if not a.connected then ran a unavailable [] else elim c.context_at_start [
  | some e ↦ ran a (context_error e) []
  | none ↦ ran a (raw_answer c (c.rows sql)) (sql ∷ [])
]

-- The adapter behind `HealthCheck`, and whether it found the database alive.
unfoldable pub health_check : Adapter → Call → Adapter × Bool
unfolding failed succeeded
health_check a c =
    if not a.connected
    then (a, false)
    else if c.ping
    then (record a { available = true; circuit_breaker = succeeded a.circuit_breaker }, true)
    else (
      record a { available = false; circuit_breaker = failed c.failed_at a.circuit_breaker },
      false,
    )

-- `Connect`, where `opened` tells whether the connection could be opened.
unfoldable pub connect : Bool → Adapter → Call → Adapter × Bool
connect opened a c =
    if a.connected
    then (a, true)
    else if not opened
    then (a, false)
    else if c.ping
    then (record a { connected = true; available = true }, true)
    else (a, false)

unfoldable pub close : Adapter → Adapter
close a = record a { connected = false; available = false }

unfoldable pub set_circuit_breaker : Option CircuitBreaker → Adapter → Adapter
set_circuit_breaker cb a = record a { circuit_breaker = cb }
