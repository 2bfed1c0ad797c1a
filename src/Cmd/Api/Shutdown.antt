-- ===== src/Cmd/Api/Shutdown.antt =====
-- What `run` of cmd/api/main.go leaves open.
use llmwatch.Base.{[], some, ok, err, ◌≡◌, refl}
use llmwatch.Config
use llmwatch.Config.{Config}
use llmwatch.Kafka.Producer.{ProducerConfig, new_producer}
use llmwatch.Cmd.Lifecycle.{
  signals, pool, redis_client, writer, acquire, partition, act, check, within,
}
use llmwatch.Cmd.Lifecycle.Balance.{
  held, IsBalanced, Opens, check-IsBalanced, within-IsBalanced, within-Opens, bind-Opens,
  acquire-Opens, act-IsBalanced, using-IsBalanced, bind-IsBalanced, defer-IsBalanced,
}
use llmwatch.Cmd.Connect.{new_postgres_store, run_migrations, new_redis_cache}
use llmwatch.Cmd.Connect.{store_config}
use llmwatch.Cmd.Connect.Closing.{
  new_postgres_store-Opens, run_migrations-IsBalanced, new_redis_cache-Opens,
}
use llmwatch.Cmd.Api.{
  Ending, server_error, signalled, Answers, open_producer, serve, with_cache, with_store,
  with_signals, run_api,
}

open_producer-Opens : (c : ProducerConfig) → Opens writer (open_producer c)
unfolding open_producer
open_producer-Opens c =
    bind-Opens writer (check _ (new_producer c)) (λ _. act (acquire writer)) (check-IsBalanced _ _)
      (λ _. acquire-Opens writer)

serve-IsBalanced : (ending : Ending) → IsBalanced (serve ending)
unfolding serve
serve-IsBalanced (server_error x) = record { left = λ o. refl }
serve-IsBalanced (signalled (ok _)) = record { left = λ o. refl }
serve-IsBalanced (signalled (err x)) = record { left = λ o. refl }

with_cache-IsBalanced : (cfg : Config) (answers : Answers) → IsBalanced (with_cache cfg answers)
unfolding with_cache
with_cache-IsBalanced cfg answers =
    defer-IsBalanced writer (open_producer _) (λ _. serve answers.ending) (open_producer-Opens _)
      (λ _. serve-IsBalanced answers.ending)

with_store-IsBalanced :
    (cfg : Config) (answers : Answers)
    → answers.redis_ping ≡ ok tt
    → IsBalanced (with_store cfg answers)
unfolding with_store
with_store-IsBalanced cfg answers answered =
    bind-IsBalanced (within _ (run_migrations answers.migrations)) _
      (within-IsBalanced _ _ (run_migrations-IsBalanced answers.migrations))
      λ _.
        act-IsBalanced (partition _) _ (λ o. refl)
          (act-IsBalanced (partition _) _ (λ o. refl)
            (defer-IsBalanced redis_client (within _ (new_redis_cache answers.redis_ping))
              (λ _. with_cache cfg answers)
              (within-Opens _ redis_client _ (new_redis_cache-Opens answers.redis_ping answered))
              (λ _. with_cache-IsBalanced cfg answers)))

with_signals-IsBalanced :
    (cfg : Config) (answers : Answers)
    → answers.redis_ping ≡ ok tt
    → IsBalanced (with_signals cfg answers)
unfolding with_signals
with_signals-IsBalanced cfg answers answered =
    defer-IsBalanced pool (within _ (new_postgres_store (store_config cfg) answers.postgres))
      (λ _. with_store cfg answers)
      (within-Opens _ pool _ (new_postgres_store-Opens (store_config cfg) answers.postgres))
      (λ _. with_store-IsBalanced cfg answers answered)

-- However a run of the API command ends, if the ping of Redis is answered: every resource that
-- it has opened is closed once, the last one opened first, and nothing else is closed.
pub run_api_closes :
    (cfg : Config) (answers : Answers)
    → answers.redis_ping ≡ ok tt
    → held (run_api cfg answers).0 [] ≡ some []
unfolding run_api
run_api_closes cfg answers answered =
    (bind-IsBalanced (check _ (Config.validate cfg)) _ (check-IsBalanced _ _) λ _.
        using-IsBalanced signals (with_signals cfg answers)
          (with_signals-IsBalanced cfg answers answered)).left
      []
