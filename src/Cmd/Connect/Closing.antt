-- ===== src/Cmd/Connect/Closing.antt =====
-- What connecting leaves open.
use llmwatch.Base.{Bytes, codes, Result, ok, err, ◌≡◌, refl}
use llmwatch.Cmd.Lifecycle.{migrate_up, pool, redis_client, migrator, acquire, ◌>>◌, act, check}
use llmwatch.Cmd.Lifecycle.Balance.{
  IsBalanced, Opens, check-IsBalanced, bind-Opens, act-IsBalanced, using-IsBalanced,
  bind-IsBalanced,
}
use llmwatch.Cmd.Connect.{
  StoreConfig, PostgresAnswers, new_postgres_store, close_unless, unless_failed, migrate, Outcome,
  done, nothing, failed, MigrationAnswers, run_migrations, new_redis_cache,
}

close_unless-Opens :
    (ping : Result (Unit {0})) → Opens pool (act (acquire pool) >> close_unless ping)
close_unless-Opens (ok _) = record { left = λ o. refl }
close_unless-Opens (err x) = record { left = λ o. refl }

-- NewPostgresStore keeps its pool exactly when it succeeds.
pub new_postgres_store-Opens :
    (cfg : StoreConfig) (answers : PostgresAnswers) → Opens pool (new_postgres_store cfg answers)
unfolding new_postgres_store
new_postgres_store-Opens cfg answers =
    bind-Opens pool (check (codes "db: parse config") (answers.parse_config cfg.database_url)) _
      (check-IsBalanced _ _)
      λ parsed. bind-Opens pool _ _ (check-IsBalanced _ _) λ _. close_unless-Opens answers.ping

unless_failed-IsBalanced : (text : Bytes) (o : Outcome) → IsBalanced (unless_failed text o)
unless_failed-IsBalanced text done = record { left = λ o. refl }
unless_failed-IsBalanced text nothing = record { left = λ o. refl }
unless_failed-IsBalanced text (failed x) = record { left = λ o. refl }

migrate-IsBalanced : (answers : MigrationAnswers) → IsBalanced (migrate answers)
unfolding migrate
migrate-IsBalanced answers =
    act-IsBalanced migrate_up _ (λ o. refl)
      (bind-IsBalanced (unless_failed _ answers.up) (λ _. unless_failed _ answers.version)
        (unless_failed-IsBalanced _ answers.up) (λ _. unless_failed-IsBalanced _ answers.version))

-- RunMigrations closes its migrator on every path.
pub run_migrations-IsBalanced : (answers : MigrationAnswers) → IsBalanced (run_migrations answers)
unfolding run_migrations
run_migrations-IsBalanced answers =
    bind-IsBalanced (check _ answers.source) _ (check-IsBalanced _ answers.source) λ _.
      bind-IsBalanced (check _ answers.instance_of) _ (check-IsBalanced _ answers.instance_of)
        λ _. using-IsBalanced migrator (migrate answers) (migrate-IsBalanced answers)

-- NewRedisCache keeps its client also when its ping fails.
pub new_redis_cache-Opens :
    (ping : Result (Unit {0})) → ping ≡ ok tt → Opens redis_client (new_redis_cache ping)
unfolding new_redis_cache
new_redis_cache-Opens (ok _) answered = record { left = λ o. refl }
new_redis_cache-Opens (err x) answered = absurd (cc)
