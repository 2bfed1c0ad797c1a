-- ===== src/Tests/Settings.antt =====
-- The configuration at a concrete environment.
use llmwatch.Base.{
  Bytes, codes, [], ◌∷◌, ℤ, Option, none, ok, ◌≡◌, ◌≢◌, ◌↔◌, refl, arith, ◌==◌, bytes_eq, bytes_beq,
  if◌then◌else◌,
}
use llmwatch.Config.{get_env_slice, load, validate}
use llmwatch.Config.Brokers.{get_env_slice-join, validate-load_iff}

abbrev environment : Bytes → Bytes
environment key =
    if key == codes "KAFKA_BROKERS"
    then codes "k1:9092,k2:9092"
    else if key == codes "DATABASE_URL"
    then codes "postgres://db"
    else []

abbrev no_duration : Bytes → Option ℤ
no_duration s = none

get_env_slice-join_example :
    get_env_slice environment no_duration (codes "KAFKA_BROKERS") []
    ≡ codes "k1:9092" ∷ codes "k2:9092" ∷ []
get_env_slice-join_example =
    get_env_slice-join environment no_duration (codes "KAFKA_BROKERS") (codes "k1:9092")
      (codes "k2:9092" ∷ []) [] ((cc, omega arith), ((cc, omega arith), tt))
      (unfold bytes_beq in refl)

validate-load_iff_example :
    (validate (load environment no_duration) ≡ ok tt) ↔ (environment (codes "DATABASE_URL") ≢ [])
validate-load_iff_example = validate-load_iff environment no_duration
