-- ===== src/Db/Postgres.antt =====
-- internal/db/postgres.go: `PostgresStore`, with every method of the interface `Store`.
use llmwatch.Base.{Bytes, ℤ, Float64, Result}
use llmwatch.Models.Views.{ErrorRateByModel, ProviderComparison}
use llmwatch.Db.Hourly.{HourlyMetrics}
use llmwatch.Db.Store.{Store}
use llmwatch.Db.Calls.{Row, Scan, Pool, insert_event, get_recent_calls}
use llmwatch.Db.Partition.{CreatePartition, Executor, PartitionStore, ensure_partition}
use llmwatch.Db.Reports.{
  SummaryRow, Rows, Statements, get_summary, get_error_rates, get_provider_comparison,
  upsert_hourly_metrics, health_check,
}

-- One connection pool with all the statements.
pub record Postgres (F : Type 0) : Type 1 where
  pub State : Type 0
  pub insert : Row F → State → State × Scan
  pub select_recent : ℤ → State → State × Result (Rows (Row F))
  pub select_summary : Bytes → State → State × Result (SummaryRow F)
  pub select_error_rates : Bytes → State → State × Result (Rows (ErrorRateByModel F))
  pub select_comparison : Bytes → State → State × Result (Rows (ProviderComparison F))
  pub exec_upsert : HourlyMetrics F → State → State × Result (Unit {0})
  pub exec : CreatePartition → State → State × Result (Unit {0})
  pub ping : State → State × Result (Unit {0})

module _ {F : Type 0} (P : Postgres F) where
  abbrev pub calls_pool : Pool F
  calls_pool = record { State = P.State; insert = P.insert; select_recent = P.select_recent }

  abbrev pub statements : Statements F
  statements = record {
    State = P.State;
    select_summary = P.select_summary;
    select_error_rates = P.select_error_rates;
    select_comparison = P.select_comparison;
    exec_upsert = P.exec_upsert;
    ping = P.ping;
  }

  abbrev pub executor : Executor
  executor = record { State = P.State; exec = P.exec }

  -- A method that uses the pool only.
  abbrev pub on_pool :
      {A : Type 0} → (P.State → P.State × A) → PartitionStore executor → PartitionStore executor × A
  on_pool method s = let (p, a) = method s.pool in (record s { pool = p }, a)

  abbrev pub postgres_store : ⦃fl : Float64 F⦄ → Store F
  postgres_store = record {
    State = PartitionStore executor;
    insert_event = λ e. on_pool (insert_event calls_pool e);
    get_recent_calls = λ limit. on_pool (get_recent_calls calls_pool limit);
    get_summary = λ since. on_pool (get_summary statements since);
    get_error_rates = λ since. on_pool (get_error_rates statements since);
    get_provider_comparison = λ since. on_pool (get_provider_comparison statements since);
    upsert_hourly_metrics = λ hm. on_pool (upsert_hourly_metrics statements hm);
    ensure_partition = λ date. ensure_partition executor date;
    health_check = on_pool (health_check statements);
  }
