-- ===== src/Config.antt =====
-- internal/config/config.go: the configuration from the environment.
pub mod Brokers
use llmwatch.Base.{
  ℕ, ◌+◌, ◌-◌, ◌*◌, ◌%◌, ◌^◌, Bytes, codes, List, [], ◌∷◌, ◌++◌, ◌==◌, nat_eq, bytes_eq,
  if◌then◌else◌, ltb, true, false, ℤ, pos, pos_part, neg_part, sub_ℕ, atoi, Option, none, some,
  Error, Result, ok, err,
}

-- A duration is a number of nanoseconds.
pub record Config : Type 0 where
  pub api_port : Bytes
  pub read_timeout : ℤ
  pub write_timeout : ℤ
  pub shutdown_timeout : ℤ
  pub kafka_brokers : List Bytes
  pub kafka_topic : Bytes
  pub kafka_group_id : Bytes
  pub kafka_partitions : ℤ
  pub database_url : Bytes
  pub db_max_conns : ℤ
  pub db_min_conns : ℤ
  pub db_max_conn_life : ℤ
  pub redis_url : Bytes
  pub redis_password : Bytes
  pub redis_db : ℤ
  pub prometheus_port : Bytes
  pub env : Bytes
  pub log_level : Bytes

-- The conversion int32(n).
unfoldable pub to_int32 : ℤ → ℤ
to_int32 a =
    let r = (pos_part a + (2 ^ 32 - neg_part a % 2 ^ 32)) % 2 ^ 32 in
    if ltb r (2 ^ 31) then pos r else sub_ℕ r (2 ^ 32)

abbrev pub comma : ℕ
comma = b','

-- `if part != "" { result = append(result, part) }`
abbrev pub add_part : List Bytes → Bytes → List Bytes
add_part result part = if part == [] then result else result ++ part ∷ []

-- The loop of getEnvSlice on the text that is left, with val[start:i] and the result so far.
unfoldable pub split_parts : Bytes → Bytes → List Bytes → List Bytes
split_parts [] part result = add_part result part
split_parts (c ∷ s) part result = elim (c == comma) [
  | true ↦ split_parts s [] (add_part result part)
  | false ↦ split_parts s (part ++ c ∷ []) result
]

-- `getenv` is os.Getenv, the empty text for an unset variable; `parse_duration` is
-- time.ParseDuration, `none` for an error.
module _ (getenv : Bytes → Bytes) (parse_duration : Bytes → Option ℤ) where
  unfoldable pub get_env : Bytes → Bytes → Bytes
  get_env key default = let val = getenv key in if val == [] then default else val

  unfoldable pub get_env_required : Bytes → Bytes
  get_env_required key = let val = getenv key in if val == [] then [] else val

  unfoldable pub get_env_int : Bytes → ℤ → ℤ
  get_env_int key default =
      let val = getenv key in
      if val == [] then default else elim (atoi val) [ none ↦ default | some i ↦ i ]

  unfoldable pub get_duration : Bytes → ℤ → ℤ
  get_duration key default =
      let val = getenv key in
      if val == [] then default else elim (parse_duration val) [ none ↦ default | some d ↦ d ]

  unfoldable pub get_env_slice : Bytes → List Bytes → List Bytes
  unfolding split_parts
  get_env_slice key default =
      let val = getenv key in
      if val == []
      then default
      else elim (split_parts val [] []) [ [] ↦ default | part ∷ parts ↦ part ∷ parts ]

  abbrev seconds : ℕ → ℤ
  seconds n = pos (n * 1000000000)

  unfoldable pub load : Config
  unfolding get_env get_env_required get_env_int get_duration get_env_slice to_int32
  load = record {
    api_port = get_env (codes "API_PORT") (codes "8080");
    read_timeout = get_duration (codes "READ_TIMEOUT") (seconds 30);
    write_timeout = get_duration (codes "WRITE_TIMEOUT") (seconds 30);
    shutdown_timeout = get_duration (codes "SHUTDOWN_TIMEOUT") (seconds 30);
    kafka_brokers = get_env_slice (codes "KAFKA_BROKERS") (codes "kafka:9092" ∷ []);
    kafka_topic = get_env (codes "KAFKA_TOPIC") (codes "llm-events");
    kafka_group_id = get_env (codes "KAFKA_GROUP_ID") (codes "llm-metrics-consumer");
    kafka_partitions = get_env_int (codes "KAFKA_PARTITIONS") (pos 3);
    database_url = get_env_required (codes "DATABASE_URL");
    db_max_conns = to_int32 (get_env_int (codes "DB_MAX_CONNS") (pos 25));
    db_min_conns = to_int32 (get_env_int (codes "DB_MIN_CONNS") (pos 5));
    db_max_conn_life = get_duration (codes "DB_MAX_CONN_LIFE") (seconds 300);
    redis_url = get_env (codes "REDIS_URL") (codes "redis:6379");
    redis_password = get_env (codes "REDIS_PASSWORD") [];
    redis_db = get_env_int (codes "REDIS_DB") (pos 0);
    prometheus_port = get_env (codes "PROMETHEUS_PORT") (codes "9090");
    env = get_env (codes "APP_ENV") (codes "development");
    log_level = get_env (codes "LOG_LEVEL") (codes "info");
  }

unfoldable pub validate : Config → Result (Unit {0})
validate c =
    if c.database_url == []
    then err Error.database_url_required
    else elim c.kafka_brokers [ [] ↦ err Error.brokers_required | _ ↦ ok tt ]
