-- ===== src/Cmd/Connect.antt =====
-- How the commands connect: `NewPostgresStore` of internal/db/postgres.go, `RunMigrations` of
-- internal/db/migrate.go and `NewRedisCache` of internal/redis/client.go.
pub mod Closing
use llmwatch.Base.{
  Bytes, codes, List, [], ◌∷◌, ◌++◌, Bool, if◌then◌else◌, ℤ, pos, ltb_ℤ, Error, Result, ok, err,
  wrapped,
}
use llmwatch.Config.{Config}
use llmwatch.Cmd.Lifecycle.{
  Resource, pool, migrator, redis_client, Action, acquire, release, migrate_up, Trace, ◌>>=◌, ◌>>◌,
  pure, raise, act, check, within, deferring,
}

-- `StoreConfig` without its logger.
pub record StoreConfig : Type 0 where
  pub database_url : Bytes
  pub max_conns : ℤ
  pub min_conns : ℤ
  pub max_conn_life : ℤ

-- The fields that both commands fill it with.
abbrev pub store_config : Config → StoreConfig
store_config cfg = record {
  database_url = cfg.database_url;
  max_conns = cfg.db_max_conns;
  min_conns = cfg.db_min_conns;
  max_conn_life = cfg.db_max_conn_life;
}

-- What NewPostgresStore sets in the pool's configuration. Durations are nanoseconds.
pub record PoolConfig : Type 0 where
  pub max_conns : ℤ
  pub min_conns : ℤ
  pub max_conn_lifetime : ℤ
  pub connect_timeout : ℤ

-- The settings over those that the library has parsed from the URL.
unfoldable pub pool_config : StoreConfig → PoolConfig → PoolConfig
pool_config cfg parsed = record {
  max_conns = cfg.max_conns;
  min_conns = cfg.min_conns;
  max_conn_lifetime =
      if ltb_ℤ (pos 0) cfg.max_conn_life then cfg.max_conn_life else parsed.max_conn_lifetime;
  connect_timeout = pos 10000000000;
}

-- What the library of PostgreSQL answers: to the URL, to the configuration of the pool, and to the
-- first ping.
pub record PostgresAnswers : Type 0 where
  pub parse_config : Bytes → Result PoolConfig
  pub new_pool : PoolConfig → Result (Unit {0})
  pub ping : Result (Unit {0})

-- `if err := pool.Ping(ctx); err != nil { pool.Close(); … }`
abbrev pub close_unless : Result (Unit {0}) → Trace (Unit {0})
close_unless (ok _) = pure tt
close_unless (err x) = act (release pool) >> raise (wrapped (codes "db: ping") x)

unfoldable pub new_postgres_store : StoreConfig → PostgresAnswers → Trace (Unit {0})
unfolding pool_config
new_postgres_store cfg answers = do
  parsed ← check (codes "db: parse config") (answers.parse_config cfg.database_url)
  check (codes "db: create pool") (answers.new_pool (pool_config cfg parsed))
  act (acquire pool)
  close_unless answers.ping

-- How a call of the migration library ends: `nothing` is migrate.ErrNoChange of Up, and
-- migrate.ErrNilVersion of Version.
pub data Outcome : Type 0 where
  done : Outcome
  nothing : Outcome
  failed : Error → Outcome

pub record MigrationAnswers : Type 0 where
  pub source : Result (Unit {0})
  pub instance_of : Result (Unit {0})
  pub up : Outcome
  pub version : Outcome

abbrev pub unless_failed : Bytes → Outcome → Trace (Unit {0})
unless_failed text done = pure tt
unless_failed text nothing = pure tt
unless_failed text (failed x) = raise (wrapped text x)

-- RunMigrations from Up on.
unfoldable pub migrate : MigrationAnswers → Trace (Unit {0})
migrate answers = do
  act migrate_up
  unless_failed (codes "db migrate: apply migrations") answers.up
  unless_failed (codes "db migrate: get version") answers.version

-- The errors of the deferred Close are logged.
unfoldable pub run_migrations : MigrationAnswers → Trace (Unit {0})
unfolding migrate
run_migrations answers = do
  check (codes "db migrate: create iofs source") answers.source
  check (codes "db migrate: create migrator") answers.instance_of
  act (acquire migrator)
  deferring migrator (migrate answers)

-- The client is open when its ping fails, and stays so.
unfoldable pub new_redis_cache : Result (Unit {0}) → Trace (Unit {0})
new_redis_cache ping = do act (acquire redis_client); check (codes "redis: ping") ping
