-- ===== src/Cmd/Consumer/Start.antt =====
-- cmd/consumer/main.go: `run`.
pub mod Shutdown
use llmwatch.Base.{
  ℕ, Bytes, codes, List, [], ◌++◌, ℤ, pos, Float64, Error, Result, ok, err, wrapped,
}
use llmwatch.Config
use llmwatch.Config.{Config}
use llmwatch.Db.Store.{Store}
use llmwatch.Redis.Cache.{Cache}
use llmwatch.Metrics.Processor.{World}
use llmwatch.Kafka.Message.{Codec}
use llmwatch.Kafka.Consumer.{ConsumerConfig, new_consumer, Round, End, Run, consume}
use llmwatch.Cmd.Lifecycle.{
  signals, pool, redis_client, reader, Action, acquire, release, start_maintenance, consume_events,
  Trace, ◌>>=◌, ◌>>◌, pure, raise, act, check, within, deferring,
}
use llmwatch.Cmd.Connect.{
  StoreConfig, PostgresAnswers, new_postgres_store, store_config, new_redis_cache,
}
use llmwatch.Cmd.Consumer.{Counters, Worker, build_handler}

-- What the world answers to a run before it consumes.
pub record Answers : Type 0 where
  pub postgres : PostgresAnswers
  pub redis_ping : Result (Unit {0})

-- NewConsumer opens a reader when its checks pass.
unfoldable pub open_consumer : ConsumerConfig → Trace (Unit {0})
open_consumer c = do check (codes "create kafka consumer") (new_consumer c); act (acquire reader)

abbrev pub consumer_config : Config → ConsumerConfig
consumer_config cfg = record {
  brokers = cfg.kafka_brokers;
  topic = cfg.kafka_topic;
  group_id = cfg.kafka_group_id;
  start_offset = pos 0;
}

-- The run in four parts, each from the resource that it defers to close. `consumed` is what Consume
-- returns.
unfoldable pub with_reader : Result (Unit {0}) → Trace (Unit {0})
with_reader consumed = do
  act start_maintenance
  act consume_events
  check (codes "consumer error") consumed

unfoldable pub with_cache : Config → Result (Unit {0}) → Trace (Unit {0})
unfolding open_consumer with_reader
with_cache cfg consumed = do
  open_consumer (consumer_config cfg)
  deferring reader (with_reader consumed)

unfoldable pub with_store : Config → Answers → Result (Unit {0}) → Trace (Unit {0})
unfolding new_redis_cache with_cache
with_store cfg answers consumed = do
  within (codes "connect to redis") (new_redis_cache answers.redis_ping)
  deferring redis_client (with_cache cfg consumed)

unfoldable pub with_signals : Config → Answers → Result (Unit {0}) → Trace (Unit {0})
unfolding new_postgres_store with_store
with_signals cfg answers consumed = do
  within (codes "connect to postgres") (new_postgres_store (store_config cfg) answers.postgres)
  deferring pool (with_store cfg answers consumed)

-- Load does not fail.
unfoldable pub run_with : Config → Answers → Result (Unit {0}) → Trace (Unit {0})
unfolding with_signals
run_with cfg answers consumed = do
  check (codes "invalid config") (Config.validate cfg)
  act (acquire signals)
  deferring signals (with_signals cfg answers consumed)

module _ {F : Type 0} (S : Store F) (C : Cache F) where
  abbrev pub first_run : World S C → Run F (Worker S C)
  first_run w = record {
    state = record { world = w; counters = record { processed = []; duplicates = 0 }; calls = 0 };
    committed = [];
    handled = [];
  }

module _ {F : Type 0} ⦃fl : Float64 F⦄ (S : Store F) (C : Cache F) (codec : Codec F)
    (new_id : ℕ → Bytes) (now : ℕ → ℤ) where
  -- The rounds that the broker plays are consumed by the handler over the processor.
  unfoldable pub run_consumer : Config → Answers → List Round → End → World S C → Trace (Unit {0})
  unfolding run_with
  run_consumer cfg answers rounds end w =
      run_with cfg answers
        (consume codec (build_handler S C new_id now) rounds end (first_run S C w)).1
