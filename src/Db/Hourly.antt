-- ===== src/Db/Hourly.antt =====
-- internal/db/postgres.go: `HourlyMetrics`, and the `ON CONFLICT … DO UPDATE` clause of
-- `UpsertHourlyMetrics`.
use llmwatch.Base.{Bytes, ℤ, ◌+ℤ◌, ltb_ℤ, if◌then◌else◌}

-- The hour in milliseconds of Unix time.
pub record HourlyMetrics (F : Type 0) : Type 0 where
  pub hour_bucket : ℤ
  pub provider : Bytes
  pub model : Bytes
  pub total_calls : ℤ
  pub success_calls : ℤ
  pub error_calls : ℤ
  pub total_cost_usd : F
  pub total_latency_ms : ℤ
  pub min_latency_ms : ℤ
  pub max_latency_ms : ℤ
  pub total_input_tokens : ℤ
  pub total_output_tokens : ℤ

-- LEAST and GREATEST.
abbrev pub least : ℤ → ℤ → ℤ
least a b = if ltb_ℤ b a then b else a

abbrev pub greatest : ℤ → ℤ → ℤ
greatest a b = if ltb_ℤ a b then b else a

-- The row after an upsert that meets the row `old`; `add_cost` is the database's addition on the
-- cost column. The other columns are BIGINT: a sum that leaves their range is an error of the
-- database, which the exact sums here do not have.
unfoldable pub merge_row :
    {F : Type 0} → (F → F → F) → HourlyMetrics F → HourlyMetrics F → HourlyMetrics F
merge_row add_cost old excluded = record old {
  total_calls = old.total_calls +ℤ excluded.total_calls;
  success_calls = old.success_calls +ℤ excluded.success_calls;
  error_calls = old.error_calls +ℤ excluded.error_calls;
  total_cost_usd = add_cost old.total_cost_usd excluded.total_cost_usd;
  total_latency_ms = old.total_latency_ms +ℤ excluded.total_latency_ms;
  min_latency_ms = least old.min_latency_ms excluded.min_latency_ms;
  max_latency_ms = greatest old.max_latency_ms excluded.max_latency_ms;
  total_input_tokens = old.total_input_tokens +ℤ excluded.total_input_tokens;
  total_output_tokens = old.total_output_tokens +ℤ excluded.total_output_tokens;
}
