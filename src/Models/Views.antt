-- ===== src/Models/Views.antt =====
-- internal/models/event.go: the records that the dashboard reads.
use llmwatch.Base.{Bytes, ℤ}

pub record SummaryMetrics (F : Type 0) : Type 0 where
  pub total_calls : ℤ
  pub total_cost_usd : F
  pub avg_latency_ms : F
  pub error_rate : F
  pub period : Bytes

-- The minute in nanoseconds of Unix time.
pub record CallsPerMinutePoint : Type 0 where
  pub minute : ℤ
  pub call_count : ℤ

pub record LatencyPercentiles (F : Type 0) : Type 0 where
  pub provider : Bytes
  pub model : Bytes
  pub p50 : F
  pub p95 : F
  pub p99 : F

pub record CostByProvider (F : Type 0) : Type 0 where
  pub provider : Bytes
  pub total_usd : F

pub record ErrorRateByModel (F : Type 0) : Type 0 where
  pub provider : Bytes
  pub model : Bytes
  pub total : ℤ
  pub errors : ℤ
  pub error_rate : F

pub record ProviderComparison (F : Type 0) : Type 0 where
  pub provider : Bytes
  pub total_calls : ℤ
  pub avg_latency_ms : F
  pub total_cost_usd : F
  pub error_rate : F
  pub p95_latency_ms : F
