-- ===== src/Db/Store.antt =====
-- internal/db/postgres.go: the interface `Store`.
use llmwatch.Base.{Bool, List, ℤ, Result}
use llmwatch.Models.{LlmCallEvent}
use llmwatch.Models.Views.{SummaryMetrics, ErrorRateByModel, ProviderComparison}
use llmwatch.Db.Hourly.{HourlyMetrics}

-- A method takes the state of the database and returns it changed, with the method's result. A
-- date is a number of milliseconds of Unix time, a time.Duration a number of
-- nanoseconds.
pub record Store (F : Type 0) : Type 1 where
  pub State : Type 0
  pub insert_event : LlmCallEvent F → State → State × Result Bool
  pub get_recent_calls : ℤ → State → State × Result (List (LlmCallEvent F))
  pub get_summary : ℤ → State → State × Result (SummaryMetrics F)
  pub get_error_rates : ℤ → State → State × Result (List (ErrorRateByModel F))
  pub get_provider_comparison : ℤ → State → State × Result (List (ProviderComparison F))
  pub upsert_hourly_metrics : HourlyMetrics F → State → State × Result (Unit {0})
  pub ensure_partition : ℤ → State → State × Result (Unit {0})
  pub health_check : State → State × Result (Unit {0})
