-- ===== src/Tests/Commands.antt =====
-- Runs of the commands.
use llmwatch.Base.{codes, List, [], ◌∷◌, pos, negsuc, some, Error, ok, err, ◌≡◌, refl, bytes_beq}
use llmwatch.Config
use llmwatch.Config.{Config}
use llmwatch.Kafka.Consumer.{Round, cancelled, new_consumer}
use llmwatch.Metrics.Processor.{World}
use llmwatch.Cmd.Lifecycle.Balance.{held}
use llmwatch.Cmd.Connect.{PoolConfig, PostgresAnswers, done, nothing}
use llmwatch.Cmd.Api
use llmwatch.Cmd.Api.{run_api, signalled}
use llmwatch.Cmd.Api.Shutdown.{run_api_closes}
use llmwatch.Cmd.Consumer.Start
use llmwatch.Cmd.Consumer.Start.{run_consumer, consumer_config}
use llmwatch.Cmd.Consumer.Start.Shutdown.{run_consumer_succeeds}
use llmwatch.Tests.Fixtures.{fixed, full, marks, ids, message}

abbrev settings : Config
settings = record {
  api_port = codes "8080";
  read_timeout = pos 30000000000;
  write_timeout = pos 30000000000;
  shutdown_timeout = pos 30000000000;
  kafka_brokers = codes "k1:9092" ∷ [];
  kafka_topic = codes "llm-calls";
  kafka_group_id = codes "llmwatch";
  kafka_partitions = pos 12;
  database_url = codes "postgres://db";
  db_max_conns = pos 20;
  db_min_conns = pos 2;
  db_max_conn_life = pos 0;
  redis_url = codes "localhost:6379";
  redis_password = [];
  redis_db = pos 0;
  prometheus_port = codes "9090";
  env = codes "development";
  log_level = codes "info";
}

abbrev parsed : PoolConfig
parsed = record {
  max_conns = pos 4;
  min_conns = pos 0;
  max_conn_lifetime = pos 3600000000000;
  connect_timeout = pos 0;
}

abbrev reached : PostgresAnswers
reached = record { parse_config = λ url. ok parsed; new_pool = λ c. ok tt; ping = ok tt }

-- A schema that is up to date, and a shutdown that runs into its timeout.
abbrev slow : Api.Answers
slow = record {
  postgres = reached;
  migrations = record { source = ok tt; instance_of = ok tt; up = nothing; version = done };
  now = pos 1700000000000;
  redis_ping = ok tt;
  ending = signalled (err (Error.external (codes "context deadline exceeded")));
}

run_api_closes_example : held (run_api settings slow).0 [] ≡ some []
run_api_closes_example = run_api_closes settings slow refl

abbrev answering : Start.Answers
answering = record { postgres = reached; redis_ping = ok tt }

abbrev rounds : List Round
rounds =
    record { message = message 0 (codes "a"); commit = ok tt }
    ∷ record { message = message 1 []; commit = ok tt }
    ∷ []

abbrev refusing : World full marks
refusing = record { db = []; cache = [] }

run_consumer_succeeds_example :
    (run_consumer full marks ids
      (λ n. codes "x")
      (λ n. pos 1)
      settings
      answering
      rounds
      cancelled
      refusing).1
    ≡ ok tt
run_consumer_succeeds_example =
    run_consumer_succeeds full marks ids (λ n. codes "x") (λ n. pos 1) settings answering rounds
      refusing parsed {offset = negsuc 1} (unfold Config.validate bytes_beq in refl) refl refl refl
      refl (unfold new_consumer bytes_beq in refl) (refl, (refl, tt))
