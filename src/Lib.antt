-- ===== src/Lib.antt =====
-- A model of mountainKing, a GraphQL server that reads and writes several databases: the parts that
-- decide what is sent to a database, who may send it, and what happens when a database fails.
--
-- A request passes the middleware (internal/middleware), is resolved (internal/graphql), becomes a
-- query or a write of a data source (internal/datasource, internal/adapter) or a rendered SQL template
-- (internal/template), and is read through a cache (internal/cache). The files of this library:
--
--   Prelude         numbers with their Boolean tests, integers, lists, text as bytes, decimal numbers
--                   as the package fmt writes and reads them
--   Errors, Value   internal/errors: codes and the status of an error; the dynamic values `any`
--   Table           maps from texts
--   Config          internal/config/validation.go: the whitelist, JWT and mutations
--   RateLimit       internal/ratelimit: Fallback is fallback.go, whose requests and recovery probe are
--                   steps, Local is local.go, over the token buckets of the package rate
--   Health          internal/health/health.go: the probes of readiness and liveness
--   Datasource      internal/datasource: Manager is manager.go with a round of reconnect.go, Request has
--                   the types of interface.go, Whitelist the parser of
--                   allowed_tables (whitelist.go of the two SQL adapters), CircuitBreaker the
--                   state machine of circuit_breaker.go. `allow_request`, `record_success` and
--                   `record_failure` are AllowRequest, RecordSuccess and RecordFailure; each takes the
--                   moment at which it holds the lock, so the calls of goroutines are a list of events
--   Starrocks       internal/adapter/starrocks: Identifier, Query and Cursor are query_builder.go
--                   (`build`, `build_count`), Mutation is mutation_validator.go, and Mutation/Builder
--                   mutation_sql_builder.go. Fragment has the predicate that the theorems on SQL text
--                   share: text in which no byte but those of plain SQL stands, with a number of
--                   placeholders. TypeMapper is type_mapper.go; Writable writable_tables.go and
--                   writable_table_validator.go
--   Clickhouse      internal/adapter/clickhouse: Query is query_builder.go; Query/Refines sets it beside
--                   the builder of Starrocks. TypeMapper is type_mapper.go, with its cache. Adapter is
--                   adapter.go, as is Starrocks/Adapter for StarRocks:
--                   a call gives the adapter behind it, the answer, and the statements that were sent;
--                   Datasource/Connection has what the two share
--   Prometheus      internal/adapter/prometheus: Validator is validator.go, Builder query_builder.go with
--                   the part of `Execute` (adapter.go) before the HTTP request, Response the rest of it
--                   with type_mapper.go. The text of a value that the package fmt prints is a parameter,
--                   `sprint`, and so is what the HTTP API answers. Lexer is no code of the program:
--                   it is the documented syntax of PromQL's literals and comments, against which the
--                   text of Builder is held
--   Resolver        internal/graphql/resolver: Statements is mutation.resolvers.go, the checks of each
--                   write and the statement that is handed to the data source; Execute is
--                   mutation_exec.go and mutation_helpers.go, where `execute_mutation` returns the
--                   answer and the effects in their order. The results of its collaborators (rate
--                   limiter, data source) are fields of the plan. Requests has the requests that query.go
--                   builds, Connection its connections of a page, Prometheus the conversion of the rows of
--                   its adapter, and Templates template.resolvers.go with template_helpers.go
--   Template        internal/template: Sanitizer is sanitizer.go (`round` is a round of the loop of
--                   sanitizeSQL, `scan` the loop), FuncMap is funcmap.go, Params validator.go, Keys
--                   cache.go, Pagination pagination.go, Renderer renderer.go, Engine `Execute` of engine.go,
--                   Registry registry.go with `Reload` and `ListTemplates`, Loader loader.go. What
--                   text/template parses and renders, what stands on the disk and what the database
--                   answers are inputs
--   Scalar          internal/graphql/scalar/anyvalue.go
--   Cache           internal/cache/memory.go: Memory has the operations. Lru is an interface of the
--                   package golang-lru, an operation and its laws each, and Lru/Listed a list that has
--                   them. Layer is layer.go, over a record of operations that any backend has; the
--                   packages gob and math/rand are parameters. Normalize is normalize.go and
--                   key.go
--   Http            requests, responses and handlers; a handler goes from a request and a world of shared
--                   state to a response and a world
--   Middleware      internal/middleware: AuthFailureLimiter is auth_failure_limiter.go, Authz authz.go,
--                   Auth auth.go with auth_middleware.go, Guards cors.go, csrf.go, concurrency.go and
--                   ratelimit.go. A middleware is a function from a handler to a handler
--   Server          Chain composes the middleware in the order of cmd/server/main.go, in front of the
--                   routes. Batch is internal/server/batch.go: the goroutines of a batch are the list of
--                   the places of their queries, in the order in which they end. Depth is the limit of
--                   the depth of a document in internal/server/server.go
--   Retry           pkg/retry: `retry_do` is Do
--
-- Fuel and bounds: the decimal digits of n are written with n as fuel, more than it has digits. The
-- loop of `Set` that makes room for an entry takes the number of entries as fuel, since each round
-- removes one. The loop of sanitizeSQL reads one byte or more in a round, so it is structural in the
-- bytes; `skip` is the number of those that a round has read ahead. The loop of Do is structural in
-- the number of attempts left. The backoff of Do wraps around at 64 bits as Go's shift and product do.
--
-- Not modelled: message texts of errors, logging, metrics and traces; locks, a sequence of calls being
-- the order in which they are taken; counters above 64 bits, and moments before the first one. Text is
-- bytes, and spaces are those of ASCII. The package net (parsing of addresses and networks) and the
-- package golang-lru are parameters. The mock adapter, the listening HTTP server, the loading of the
-- configuration and the code that gqlgen writes are left out.
pub mod Prelude
pub mod Errors
pub mod Value
pub mod Datasource
pub mod Starrocks
pub mod Template
pub mod Scalar
pub mod Cache
pub mod Middleware
pub mod Retry
pub mod Resolver
pub mod Prometheus
pub mod Clickhouse
pub mod Table
pub mod RateLimit
pub mod Config
pub mod Health
pub mod Http
pub mod Server
