-- ===== src/Starrocks/Adapter.antt =====
-- internal/adapter/starrocks/adapter.go: the calls of an adapter, and the address of its database. The
-- context of a call is not asked; the package database/sql is what a call meets.
mod Failing
mod Tests
use mountain_king.Datasource.CircuitBreaker.{CircuitBreaker}
use mountain_king.Datasource.Connection.{
  Adapter, Rows, query_failed, scan_failed, scanned, Written, exec_failed, affected_failed,
  affected, Call, QueryResult, Ran, ran, allowed, succeeded, failed, extract_table,
}
use mountain_king.Datasource.Options.{Readers, get_duration_option, get_int_option, text_field}
use mountain_king.Datasource.Request.{QueryRequest}
use mountain_king.Errors.{
  Result, ok, err, ◌>>=◌, datasource_error, err_datasource_unavailable, err_datasource_circuit_open,
  err_datasource_query_error, err_datasource_template_query_error,
}
use mountain_king.Prelude.{
  Bool, true, false, not, Option, none, some, List, [], ◌∷◌, ◌++◌, Bytes, codes, if◌then◌else◌,
}
use mountain_king.Prelude.Decimal.{format_int}
use mountain_king.Prelude.Int.{ℤ, pos}
use mountain_king.Starrocks.Query.{Sql, build, build_count}
use mountain_king.Template.Params.{parse_int}
use mountain_king.Value.{Value, Fields, lookup_field, string, int, float64}

abbrev unavailable : {A : Type 0} → Result A
unavailable = datasource_error err_datasource_unavailable

abbrev query_error : {A : Type 0} → Result A
query_error = datasource_error err_datasource_query_error

abbrev template_error : {A : Type 0} → Result A
template_error = datasource_error err_datasource_template_query_error

unfoldable pub execute_count :
    Adapter → Call → Bool → QueryRequest → Bytes → Sql → List Fields → Ran QueryResult
unfolding build_count
execute_count a c need_count req table sql rows =
    if not need_count
    then ran a (ok (record { data_rows = rows; total_count = none })) (sql ∷ [])
    else elim (build_count a.query_builder req table) [
      | err e ↦ ran a (err e) (sql ∷ [])
      | ok counting ↦ elim (c.count counting) [
        | none ↦ ran a query_error (sql ∷ counting ∷ [])
        | some n ↦
            ran a (ok (record { data_rows = rows; total_count = some n })) (sql ∷ counting ∷ [])
      ]
    ]

unfoldable pub execute_rows :
    Adapter → Call → Bool → QueryRequest → Bytes → Sql → Rows → Ran QueryResult
unfolding execute_count
execute_rows a c need_count req table sql query_failed = ran a query_error (sql ∷ [])
execute_rows a c need_count req table sql scan_failed = ran a query_error (sql ∷ [])
execute_rows a c need_count req table sql (scanned rows) =
    execute_count a c need_count req table sql rows

unfoldable pub prepared : Adapter → QueryRequest → Result (Bytes × Sql)
unfolding extract_table build
prepared a req = do
  table ← extract_table req.options
  sql ← build a.query_builder req table
  ok (table, sql)

unfoldable pub execute_prepared :
    Adapter → Call → Bool → QueryRequest → Result (Bytes × Sql) → Ran QueryResult
unfolding execute_rows
execute_prepared a c need_count req (err e) = ran a (err e) []
execute_prepared a c need_count req (ok (table, sql)) =
    execute_rows a c need_count req table sql (c.rows sql)

unfoldable pub execute : Adapter → Call → Bool → QueryRequest → Ran QueryResult
unfolding prepared execute_prepared
execute a c need_count req =
    if not a.connected
    then ran a unavailable []
    else execute_prepared a c need_count req (prepared a req)

unfoldable pub raw_answer : Rows → Result (List Fields)
raw_answer query_failed = template_error
raw_answer scan_failed = template_error
raw_answer (scanned rows) = ok rows

unfoldable pub execute_raw : Adapter → Call → Sql → Ran (List Fields)
unfolding raw_answer
execute_raw a c sql =
    if not a.connected then ran a unavailable [] else ran a (raw_answer (c.rows sql)) (sql ∷ [])

unfoldable pub write_answer : Adapter → Call → Sql → Written → Ran ℤ
unfolding failed succeeded
write_answer a c sql exec_failed =
    ran (record a { circuit_breaker = failed c.failed_at a.circuit_breaker }) query_error (sql ∷ [])
write_answer a c sql affected_failed =
    ran (record a { circuit_breaker = succeeded a.circuit_breaker }) query_error (sql ∷ [])
write_answer a c sql (affected n) =
    ran (record a { circuit_breaker = succeeded a.circuit_breaker }) (ok n) (sql ∷ [])

unfoldable pub execute_write : Adapter → Call → Sql → Ran ℤ
unfolding allowed write_answer
execute_write a c sql =
    let (cb, granted) = allowed c.allowed_at a.circuit_breaker in
    if not a.connected
    then ran a unavailable []
    else if not granted
    then ran (record a { circuit_breaker = cb }) (datasource_error err_datasource_circuit_open) []
    else write_answer (record a { circuit_breaker = cb }) c sql (c.written sql)

-- `HealthCheck`, which does not tell the breaker.
unfoldable pub health_check : Adapter → Call → Adapter × Bool
health_check a c = if not a.connected then (a, false) else (record a { available = c.ping }, c.ping)

-- `Connect`, on the address or the error of `buildDSN`, and whether the connection could be opened.
unfoldable pub connect : Option Bytes → Bool → Adapter → Call → Adapter × Bool
connect none opened a c = (a, a.connected)
connect (some dsn) opened a c =
    if a.connected
    then (a, true)
    else if not opened
    then (a, false)
    else if c.ping
    then (record a { connected = true; available = true }, true)
    else (a, false)

unfoldable pub close : Adapter → Adapter
close a = record a { connected = false; available = false }

unfoldable pub set_circuit_breaker : Option CircuitBreaker → Adapter → Adapter
set_circuit_breaker cb a = record a { circuit_breaker = cb }

-- A port that is a text has to be a number.
unfoldable pub port_of : Readers → Option Value → Option ℤ
unfolding parse_int
port_of rd (some (int z)) = some z
port_of rd (some (float64 bits)) = some (rd.to_int bits)
port_of rd (some (string s)) = parse_int s
port_of rd v = some (pos 9030)

abbrev addressed : Readers → Fields → Fields → ℤ → Bytes
unfolding text_field format_int get_duration_option
addressed rd connection options port =
    text_field connection (codes "username")
    ++ (codes ":"
        ++ (text_field connection (codes "password")
            ++ (codes "@tcp("
                ++ (text_field connection (codes "host")
                    ++ (codes ":"
                        ++ (format_int port
                            ++ (codes ")/"
                                ++ (text_field connection (codes "database")
                                    ++ (codes "?timeout="
                                        ++ (rd.format_duration (
                                              get_duration_option rd options
                                                (codes "connection_timeout") (pos 5_000_000_000))
                                            ++ codes "&parseTime=true"))))))))))

unfoldable pub build_dsn : Readers → Fields → Fields → Option Bytes
unfolding text_field port_of lookup_field addressed format_int get_duration_option
build_dsn rd connection options = elim (text_field connection (codes "host")) [
  | [] ↦ none
  | c ∷ host ↦ elim (port_of rd (lookup_field (codes "port") connection)) [
    | none ↦ none
    | some port ↦ some (addressed rd connection options port)
  ]
]

-- The size of the pool, and how long its connections live.
unfoldable pub pool_of : Readers → Fields → ℤ
unfolding get_int_option
pool_of rd options = get_int_option rd options (codes "pool_size") (pos 10)
