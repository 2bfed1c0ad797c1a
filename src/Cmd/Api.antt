-- ===== src/Cmd/Api.antt =====
-- cmd/api/main.go: `run`.
pub mod Shutdown
use llmwatch.Base.{Bytes, codes, List, [], ◌∷◌, ◌++◌, ℤ, pos, ◌+ℤ◌, Error, Result, ok, err, wrapped}
use llmwatch.Config
use llmwatch.Config.{Config}
use llmwatch.Kafka.Producer.{ProducerConfig, new_producer}
use llmwatch.Cmd.Lifecycle.{
  signals, pool, redis_client, writer, Action, acquire, release, partition, listen, shut_down,
  Trace, ◌>>=◌, ◌>>◌, pure, raise, act, check, within, deferring,
}
use llmwatch.Cmd.Connect.{
  PostgresAnswers, store_config, new_postgres_store, MigrationAnswers, run_migrations,
  new_redis_cache,
}

-- What ends the wait: an error of ListenAndServe, or the signal to shut down with the answer of
-- Shutdown.
pub data Ending : Type 0 where
  server_error : Error → Ending
  signalled : Result (Unit {0}) → Ending

-- What the world answers to a run; `now` is time.Now() in milliseconds.
pub record Answers : Type 0 where
  pub postgres : PostgresAnswers
  pub migrations : MigrationAnswers
  pub now : ℤ
  pub redis_ping : Result (Unit {0})
  pub ending : Ending

-- NewProducer opens a writer when its checks pass.
unfoldable pub open_producer : ProducerConfig → Trace (Unit {0})
open_producer c = do check (codes "create kafka producer") (new_producer c); act (acquire writer)

-- From the start of the server on.
unfoldable pub serve : Ending → Trace (Unit {0})
serve (server_error x) = act listen >> raise (wrapped (codes "http server") x)
serve (signalled stopped) =
    act listen >> (act shut_down >> check (codes "http server shutdown") stopped)

-- The run in four parts, each from the resource that it defers to close: the writer, the client of
-- Redis, the pool and the signals.
unfoldable pub with_cache : Config → Answers → Trace (Unit {0})
unfolding open_producer serve
with_cache cfg answers = do
  open_producer (record { brokers = cfg.kafka_brokers; topic = cfg.kafka_topic })
  deferring writer (serve answers.ending)

-- The errors of EnsurePartition are logged.
unfoldable pub with_store : Config → Answers → Trace (Unit {0})
unfolding run_migrations new_redis_cache with_cache
with_store cfg answers = do
  within (codes "run migrations") (run_migrations answers.migrations)
  act (partition answers.now)
  act (partition (answers.now +ℤ pos 86400000))
  within (codes "connect to redis") (new_redis_cache answers.redis_ping)
  deferring redis_client (with_cache cfg answers)

unfoldable pub with_signals : Config → Answers → Trace (Unit {0})
unfolding new_postgres_store with_store
with_signals cfg answers = do
  within (codes "connect to postgres") (new_postgres_store (store_config cfg) answers.postgres)
  deferring pool (with_store cfg answers)

-- Load does not fail.
unfoldable pub run_api : Config → Answers → Trace (Unit {0})
unfolding with_signals
run_api cfg answers = do
  check (codes "invalid config") (Config.validate cfg)
  act (acquire signals)
  deferring signals (with_signals cfg answers)
