-- ===== src/Datasource/Connection.antt =====
-- What the SQL adapters (internal/adapter/starrocks/adapter.go and internal/adapter/clickhouse/adapter.go)
-- share: the state of an adapter, what the package database/sql answers, and the table of a request.
use mountain_king.Datasource.CircuitBreaker.{
  CircuitBreaker, allow_request, record_success, record_failure,
}
use mountain_king.Errors.{Result, ok, validation_error, err_validation_invalid_table}
use mountain_king.Prelude.{ℕ, Bool, true, Option, none, some, List, ◌∷◌, Bytes, codes}
use mountain_king.Prelude.Int.{ℤ}
use mountain_king.Starrocks.Query.{SqlQueryBuilder, Sql}
use mountain_king.Value.{Value, Fields, lookup_field, string}

-- `connected` tells whether `db` is not nil.
pub record Adapter : Type 0 where
  pub connection : Fields
  pub options : Fields
  pub query_builder : SqlQueryBuilder
  pub connected : Bool
  pub available : Bool
  pub circuit_breaker : Option CircuitBreaker

pub data ContextError : Type 0 where
  deadline_exceeded canceled : ContextError

-- `QueryContext` and then `scanRows`, and `ExecContext` and then `RowsAffected`.
pub data Rows : Type 0 where
  query_failed scan_failed : Rows
  scanned : List Fields → Rows

pub data Written : Type 0 where
  exec_failed affected_failed : Written
  affected : ℤ → Written

-- What a call meets: the error of its context at its start and after a failure, the moments at which it
-- takes the lock of the breaker, and the answers of the database.
pub record Call : Type 0 where
  pub context_at_start : Option ContextError
  pub context_after : Option ContextError
  pub allowed_at : ℕ
  pub failed_at : ℕ
  pub rows : Sql → Rows
  pub count : Sql → Option ℤ
  pub written : Sql → Written
  pub ping : Bool

pub record QueryResult : Type 0 where
  pub data_rows : List Fields
  pub total_count : Option ℤ

-- The adapter behind a call, its answer, and the statements that the database was given.
pub record Ran (A : Type 0) : Type 0 where
  pub adapter : Adapter
  pub answer : Result A
  pub sent : List Sql

abbrev pub ran : {A : Type 0} → Adapter → Result A → List Sql → Ran A
ran a answer sent = record { adapter = a; answer = answer; sent = sent }

-- `cb != nil && !cb.AllowRequest()`, and the calls under `if cb != nil`.
unfoldable pub allowed : ℕ → Option CircuitBreaker → Option CircuitBreaker × Bool
allowed now none = (none, true)
allowed now (some cb) = let (cb', b) = allow_request now cb in (some cb', b)

unfoldable pub succeeded : Option CircuitBreaker → Option CircuitBreaker
succeeded none = none
succeeded (some cb) = some (record_success cb)

unfoldable pub failed : ℕ → Option CircuitBreaker → Option CircuitBreaker
failed now none = none
failed now (some cb) = some (record_failure now cb)

abbrev table_of : Option Value → Result Bytes
table_of (some (string (c ∷ s))) = ok (c ∷ s)
table_of v = validation_error err_validation_invalid_table

unfoldable pub extract_table : Fields → Result Bytes
unfolding lookup_field
extract_table options = table_of (lookup_field (codes "table") options)
