-- ===== src/Metrics/Rollup.antt =====
-- internal/metrics/processor.go: `BuildHourlyRollup`.
pub mod Sums
pub mod Range
mod Extremes
pub mod Merge
pub mod Upserts
use mathlib.Core.List.{foldl}
use llmwatch.Base.{
  ◌-◌, ◌^◌, Bytes, List, ◌==◌, bytes_eq, int_eq, if◌then◌else◌, ℤ, pos, add64, ltb_ℤ, Float64,
}
use llmwatch.Models.{LlmCallEvent, success}
use llmwatch.Db.Hourly.{HourlyMetrics}

abbrev pub max_int64 : ℤ
max_int64 = pos (2 ^ 63 - 1)

module _ {F : Type 0} ⦃fl : Float64 F⦄ where
  -- The literal before the loop.
  unfoldable pub empty_rollup : ℤ → Bytes → Bytes → HourlyMetrics F
  empty_rollup hour_bucket provider model = record {
    hour_bucket = hour_bucket;
    provider = provider;
    model = model;
    total_calls = pos 0;
    success_calls = pos 0;
    error_calls = pos 0;
    total_cost_usd = fl.decimal 0 0;
    total_latency_ms = pos 0;
    min_latency_ms = max_int64;
    max_latency_ms = pos 0;
    total_input_tokens = pos 0;
    total_output_tokens = pos 0;
  }

  -- The body of the loop.
  unfoldable pub add_event : HourlyMetrics F → LlmCallEvent F → HourlyMetrics F
  add_event hm e =
      let succeeded = e.status == success in
      record hm {
        total_calls = add64 hm.total_calls (pos 1);
        success_calls = if succeeded then add64 hm.success_calls (pos 1) else hm.success_calls;
        error_calls = if succeeded then hm.error_calls else add64 hm.error_calls (pos 1);
        total_cost_usd = fl.fadd hm.total_cost_usd e.cost_usd;
        total_latency_ms = add64 hm.total_latency_ms e.latency_ms;
        total_input_tokens = add64 hm.total_input_tokens e.input_tokens;
        total_output_tokens = add64 hm.total_output_tokens e.output_tokens;
        min_latency_ms =
            if ltb_ℤ e.latency_ms hm.min_latency_ms then e.latency_ms else hm.min_latency_ms;
        max_latency_ms =
            if ltb_ℤ hm.max_latency_ms e.latency_ms then e.latency_ms else hm.max_latency_ms;
      }

  -- The test behind the loop.
  unfoldable pub reset_min : HourlyMetrics F → HourlyMetrics F
  reset_min hm = if hm.total_calls == pos 0 then record hm { min_latency_ms = pos 0 } else hm

  unfoldable pub build_hourly_rollup : ℤ → Bytes → Bytes → List (LlmCallEvent F) → HourlyMetrics F
  unfolding empty_rollup add_event reset_min
  build_hourly_rollup hour_bucket provider model events =
      reset_min (foldl add_event (empty_rollup hour_bucket provider model) events)
