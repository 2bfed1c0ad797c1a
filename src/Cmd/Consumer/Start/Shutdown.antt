-- ===== src/Cmd/Consumer/Start/Shutdown.antt =====
-- What `run` of cmd/consumer/main.go leaves open, and when it ends without an error.
use llmwatch.Base.{ℕ, Bytes, codes, List, [], All, ℤ, some, Float64, Result, ok, ◌≡◌, refl, ap, ◌∙◌}
use llmwatch.Config
use llmwatch.Config.{Config}
use llmwatch.Db.Store.{Store}
use llmwatch.Redis.Cache.{Cache}
use llmwatch.Metrics.Processor.{World}
use llmwatch.Kafka.Message.{Codec}
use llmwatch.Kafka.Consumer.{ConsumerConfig, new_consumer, Round, End, cancelled, Run, consume}
use llmwatch.Kafka.Consumer.Delivery.{consume_to_end}
use llmwatch.Cmd.Lifecycle.{
  signals, pool, redis_client, reader, acquire, start_maintenance, consume_events, act, check,
  within,
}
use llmwatch.Cmd.Lifecycle.Balance.{
  held, IsBalanced, Opens, check-IsBalanced, within-Opens, bind-IsBalanced, defer-IsBalanced,
  bind-Opens, acquire-Opens, act-IsBalanced, using-IsBalanced,
}
use llmwatch.Cmd.Connect.{
  PoolConfig, pool_config, new_postgres_store, store_config, new_redis_cache,
}
use llmwatch.Cmd.Connect.Closing.{new_postgres_store-Opens, new_redis_cache-Opens}
use llmwatch.Cmd.Consumer.{Worker, build_handler}
use llmwatch.Cmd.Consumer.Start.{
  Answers, open_consumer, consumer_config, with_reader, with_cache, with_store, with_signals,
  run_with, first_run, run_consumer,
}

open_consumer-Opens : (c : ConsumerConfig) → Opens reader (open_consumer c)
unfolding open_consumer
open_consumer-Opens c =
    bind-Opens reader (check _ (new_consumer c)) (λ _. act (acquire reader)) (check-IsBalanced _ _)
      (λ _. acquire-Opens reader)

with_reader-IsBalanced : (consumed : Result (Unit {0})) → IsBalanced (with_reader consumed)
unfolding with_reader
with_reader-IsBalanced consumed =
    act-IsBalanced start_maintenance _ (λ o. refl)
      (act-IsBalanced consume_events _ (λ o. refl) (check-IsBalanced _ consumed))

with_cache-IsBalanced :
    (cfg : Config) (consumed : Result (Unit {0})) → IsBalanced (with_cache cfg consumed)
unfolding with_cache
with_cache-IsBalanced cfg consumed =
    defer-IsBalanced reader (open_consumer _) (λ _. with_reader consumed) (open_consumer-Opens _)
      (λ _. with_reader-IsBalanced consumed)

module _ (cfg : Config) (answers : Answers) (answered : answers.redis_ping ≡ ok tt)
    (consumed : Result (Unit {0})) where
  with_store-IsBalanced : IsBalanced (with_store cfg answers consumed)
  unfolding with_store
  with_store-IsBalanced =
      defer-IsBalanced redis_client (within _ (new_redis_cache answers.redis_ping))
        (λ _. with_cache cfg consumed)
        (within-Opens _ redis_client _ (new_redis_cache-Opens answers.redis_ping answered))
        (λ _. with_cache-IsBalanced cfg consumed)

  with_signals-IsBalanced : IsBalanced (with_signals cfg answers consumed)
  unfolding with_signals
  with_signals-IsBalanced =
      defer-IsBalanced pool (within _ (new_postgres_store (store_config cfg) answers.postgres))
        (λ _. with_store cfg answers consumed)
        (within-Opens _ pool _ (new_postgres_store-Opens (store_config cfg) answers.postgres))
        (λ _. with_store-IsBalanced)

  run_with-IsBalanced : IsBalanced (run_with cfg answers consumed)
  unfolding run_with
  run_with-IsBalanced =
      bind-IsBalanced (check _ (Config.validate cfg)) _ (check-IsBalanced _ _)
        λ _. using-IsBalanced signals (with_signals cfg answers consumed) with_signals-IsBalanced

-- When PostgreSQL and Redis are reached and the reader is opened, the run ends as Consume does.
run_with_result :
    (cfg : Config) (answers : Answers) (parsed : PoolConfig) {offset : ℤ}
    (consumed : Result (Unit {0}))
    → Config.validate cfg ≡ ok tt
    → answers.postgres.parse_config cfg.database_url ≡ ok parsed
    → answers.postgres.new_pool (pool_config (store_config cfg) parsed) ≡ ok tt
    → answers.postgres.ping ≡ ok tt
    → answers.redis_ping ≡ ok tt
    → new_consumer (consumer_config cfg) ≡ ok offset
    → (run_with cfg answers consumed).1 ≡ (check (codes "consumer error") consumed).1
unfolding run_with with_signals with_store with_cache with_reader new_postgres_store new_redis_cache
    open_consumer
run_with_result cfg answers parsed consumed valid p1 p2 p3 answered opened =
    rw valid (rw p1 (rw p2 (rw p3 (rw answered (rw opened refl)))))

module _ {F : Type 0} ⦃fl : Float64 F⦄ (S : Store F) (C : Cache F) (codec : Codec F)
    (new_id : ℕ → Bytes) (now : ℕ → ℤ) (cfg : Config) (answers : Answers) where
  -- However a run of the consumer ends, if the ping of Redis is answered: every resource that
  -- it has opened is closed once, the last one opened first, and nothing else is closed.
  pub run_consumer_closes :
      (rounds : List Round) (end : End) (w : World S C)
      → answers.redis_ping ≡ ok tt
      → held (run_consumer S C codec new_id now cfg answers rounds end w).0 [] ≡ some []
  unfolding run_consumer
  run_consumer_closes rounds end w answered =
      (run_with-IsBalanced cfg answers answered
          (consume codec (build_handler S C new_id now) rounds end (first_run S C w)).1).left
        []

  -- If the configuration is valid, PostgreSQL and Redis are reached, the reader is opened, the
  -- broker commits every offset and the context is cancelled in the end, the run ends without
  -- an error, whatever the messages hold and whatever processing them returns.
  pub run_consumer_succeeds :
      (rounds : List Round) (w : World S C) (parsed : PoolConfig) {offset : ℤ}
      → Config.validate cfg ≡ ok tt
      → answers.postgres.parse_config cfg.database_url ≡ ok parsed
      → answers.postgres.new_pool (pool_config (store_config cfg) parsed) ≡ ok tt
      → answers.postgres.ping ≡ ok tt
      → answers.redis_ping ≡ ok tt
      → new_consumer (consumer_config cfg) ≡ ok offset
      → All (λ d. d.commit ≡ ok tt) rounds
      → (run_consumer S C codec new_id now cfg answers rounds cancelled w).1 ≡ ok tt
  unfolding run_consumer
  run_consumer_succeeds rounds w parsed valid p1 p2 p3 answered opened commits =
      let consumed =
        consume codec (build_handler S C new_id now) rounds cancelled (first_run S C w) in
      run_with_result cfg answers parsed consumed.1 valid p1 p2 p3 answered opened
      ∙ ap (λ (r : Run F (Worker S C) × Result (Unit {0})). (check (codes "consumer error") r.1).1)
          (consume_to_end codec (build_handler S C new_id now) rounds cancelled (first_run S C w)
            commits).0
