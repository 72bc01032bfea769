-- ===== src/Starrocks/Adapter/Tests.antt =====
-- Calls of an adapter of StarRocks.
use mountain_king.Datasource.CircuitBreaker.{CircuitBreaker, circuit_closed}
use mountain_king.Datasource.Connection.{Adapter, Call, scanned, exec_failed}
use mountain_king.Datasource.Options.{Readers}
use mountain_king.Datasource.Request.{QueryRequest}
use mountain_king.Errors.{validation_error, err_validation_invalid_table}
use mountain_king.Prelude.{
  ◌-◌, ◌≡◌, refl, true, none, some, [], ◌∷◌, Bytes, codes, bytes_eq, if◌then◌else◌, length, ltb,
  arith,
}
use mountain_king.Prelude.Int.{pos}
use mountain_king.Starrocks.Adapter.{execute, build_dsn}
use mountain_king.Starrocks.Adapter.Failing.{IsFailing, write_all, write_all-failing}
use mountain_king.Starrocks.Query.{Sql}
use mountain_king.Value.{field, end, string}

abbrev breaker : CircuitBreaker
breaker = record {
  state = circuit_closed;
  failure_count = 1;
  success_count = 0;
  last_failure_at = 3;
  opened_at = 0;
  half_open_requests = 0;
  config = record {
    failure_threshold = 2;
    open_duration = 100;
    half_open_max_requests = 1;
    success_threshold = 2;
  };
}

abbrev adapter : Adapter
adapter = record {
  connection = end;
  options = end;
  query_builder = record {
    allowed_tables =
        λ t. if bytes_eq t (codes "t") then some (λ c. bytes_eq c (codes "a")) else none;
  };
  connected = true;
  available = true;
  circuit_breaker = some breaker;
}

abbrev call : Call
call = record {
  context_at_start = none;
  context_after = none;
  allowed_at = 12;
  failed_at = 13;
  rows = λ sql. scanned (end ∷ []);
  count = λ sql. some (pos 1);
  written = λ sql. exec_failed;
  ping = true;
}

abbrev statement : Sql
statement = (codes "DELETE FROM `t`", [])

abbrev request : Bytes → QueryRequest
request table = record {
  fields = codes "a" ∷ [];
  filters = [];
  order_by = [];
  pagination = none;
  options = field (codes "table") (string table) end;
}

counted_query :
    (execute adapter call true (request (codes "t"))).sent
    ≡ (codes "SELECT `a` FROM `t`", []) ∷ (codes "SELECT COUNT(*) FROM `t`", []) ∷ []
unfolding execute bytes_eq
counted_query = refl

no_table :
    (execute adapter call true (request [])).answer ≡ validation_error err_validation_invalid_table
unfolding execute bytes_eq
no_table = refl

abbrev readers : Readers
readers = record {
  to_int = λ bits. pos 0;
  parse_bool = λ s. none;
  parse_duration = λ s. none;
  format_duration = λ d. codes "5s";
  path_escape = λ s. s;
}

address :
    build_dsn readers
      (field
        (codes "host")
        (string (codes "db"))
        (field (codes "username") (string (codes "u")) end))
      end
    ≡ some (codes "u:@tcp(db:9030)/?timeout=5s&parseTime=true")
unfolding build_dsn bytes_eq
address = refl

abbrev failing_write : Call × Sql
failing_write = (call, statement)

failing_write-IsFailing : IsFailing 10 100 failing_write
failing_write-IsFailing = record { refused = refl; after = omega arith; within = omega arith }

write_all-failing_example :
    length (write_all (failing_write ∷ failing_write ∷ failing_write ∷ []) adapter)
    ≡ (if ltb 3 (2 - 1) then 3 else 2 - 1)
write_all-failing_example =
    write_all-failing 10 100 2 (failing_write ∷ failing_write ∷ failing_write ∷ []) adapter breaker
      (record { connected = refl; held = refl }) refl refl refl (omega arith)
      (failing_write-IsFailing, (failing_write-IsFailing, (failing_write-IsFailing, tt)))
