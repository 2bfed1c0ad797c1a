-- ===== src/Lib.antt =====
-- LLMWatch takes in events of calls to language models over HTTP, queues them in Kafka, and has a
-- consumer that stores them in PostgreSQL and keeps counters in Redis, which the API reads.
--
-- The parts and how they interact:
-- - Models (internal/models/event.go): the event with `Validate`, `Normalize` and `CalculateCost`,
--   which the API, the processor and the simulator share, and the records that the dashboard reads.
-- - Api (internal/api/handlers.go): Ingest validates, publishes to an `EventProducer` and broadcasts to
--   the streams; Sse is the hub of the streams, with one event of the hub at a time, and Stream the
--   handler that serves one; Query are the
--   handlers that read, over a `Store` and a `Cache`; Middleware (internal/api/middleware.go) is CORS and
--   the counters of requests, and Router (internal/api/router.go) the table of routes with its stack.
-- - Kafka (internal/kafka/producer.go and consumer.go): Producer fills messages, Consumer is the loop
--   of `Consume` on the rounds that a broker plays, a list that ends by cancellation or a failed fetch.
-- - Metrics (internal/metrics/processor.go): Processor is `Process`, on the pair of the states behind
--   the store and the cache; Rollup is `BuildHourlyRollup`.
-- - Redis (internal/redis/client.go): Cache is the interface with what `IsDuplicate` promises as laws,
--   Client implements it over the commands of a Server, Mock in memory; Keys and Percentile are the
--   helpers.
-- - Db (internal/db/postgres.go): the interface `Store`; Calls with `InsertEvent` and `GetRecentCalls`
--   over a pool that runs their two statements, Partition with `EnsurePartition` and the calendar,
--   Reports with the three aggregate queries, the upsert and the health check, Period with the texts of
--   durations, Hourly the rows of the rollup, and Postgres all of it as one `Store`.
-- - Config (internal/config/config.go): `Load` and `Validate` over an environment.
-- - Cmd: Lifecycle is what a command opens and closes, as a trace of actions, with Go's deferred
--   calls; Connect are `NewPostgresStore`, `RunMigrations` (internal/db/migrate.go) and `NewRedisCache`;
--   Api is `run` of cmd/api/main.go; Consumer (cmd/consumer/main.go) is the handler with its metrics,
--   the maintenance and, in Start, `run`, which joins Config, Db, Redis, Kafka and Metrics; its child
--   Journey follows a batch from the API through Kafka to the table; Simulator (cmd/simulator/main.go)
--   is the generator of events, whose child Accepted posts one through the router.
-- - Base holds what the parts share, Tests the runs at concrete data.
--
-- A function of the source keeps its name, in snake case. A method that changes something takes the
-- state and returns it with its result; an error is a value of `Result`, with the contexts that
-- fmt.Errorf adds. A loop over a slice or over messages is recursion on a list, so that no fuel is
-- needed; only the decimal digits of a number are printed on fuel, which starts above the number.
-- int64 and int wrap at 2 ^ 64; strings are lists of bytes; times are milliseconds of Unix time, and
-- nanoseconds in the points of the calls per minute.
-- Random draws, new ids and the clock are arguments.
--
-- Parameters of the model, since their code is not in the repository: the arithmetic of float64
-- (Base/Float), the codec of encoding/json (Kafka/Message), the writer of the Kafka library, which
-- writes at least once (Kafka/Journey), the commands of Redis with their documented laws
-- (Redis/Server), the pool of PostgreSQL with its arithmetic and the input of its column types
-- (Db/Calls, Db/Partition, Db/Reports), the migration library, the chi library
-- (Api/Router), time.ParseDuration, sort.Float64s and strconv.ParseFloat. Keys of Redis that expire
-- are not modelled: a mark of an id stands for the 24 hours that it lives.
--
-- Not modelled: what the HTTP server, chi's own middleware and its routing do inside; logging; the
-- SQL files but for the columns of llm_calls (Db/Calls/Columns); the dashboard, which is not Go.
pub mod Base
pub mod Models
pub mod Db
pub mod Metrics
pub mod Redis
pub mod Kafka
pub mod Config
pub mod Cmd
pub mod Api
pub mod Tests
