-- ===== src/Tests/Rollups.antt =====
-- The hourly rollup at concrete events.
use llmwatch.Base.{List, ℕ, ◌+◌, Bytes, codes, [], ◌∷◌, ℤ, pos, ◌+ℤ◌, ◌≡◌, arith}
use llmwatch.Models.{LlmCallEvent, openai, error_status}
use llmwatch.Metrics.Rollup.{build_hourly_rollup}
use llmwatch.Metrics.Rollup.Sums.{HasSums, build_hourly_rollup-HasSums}
use llmwatch.Metrics.Rollup.Range.{HasRange, build_hourly_rollup_range}
use llmwatch.Metrics.Rollup.Upserts.{upsert_each, cost_each, upsert_each-build_hourly_rollup}
use llmwatch.Tests.Fixtures.{fixed, sample}

abbrev slow : LlmCallEvent ℕ
slow = record sample { latency_ms = pos 900; status = error_status }

abbrev hour : ℤ
hour = pos 1699999200000

abbrev model : Bytes
model = codes "gpt-4o-mini"

build_hourly_rollup-HasSums_example :
    HasSums (sample ∷ slow ∷ []) (build_hourly_rollup hour openai model (sample ∷ slow ∷ []))
build_hourly_rollup-HasSums_example =
    build_hourly_rollup-HasSums hour openai model (sample ∷ slow ∷ [])

build_hourly_rollup_range_example :
    HasRange (slow ∷ sample ∷ []) (build_hourly_rollup hour openai model (slow ∷ sample ∷ []))
build_hourly_rollup_range_example =
    build_hourly_rollup_range hour openai model slow (sample ∷ []) (omega arith)
      ((omega arith, (omega arith, omega arith)), ((omega arith, (omega arith, omega arith)), tt))

abbrev batches : List (LlmCallEvent ℕ × List (LlmCallEvent ℕ))
batches = (slow, []) ∷ (sample, slow ∷ []) ∷ []

upsert_each-build_hourly_rollup_example :
    let first = build_hourly_rollup {F = ℕ} hour openai model (sample ∷ []) in
    upsert_each (λ a b. a + b) hour openai model first batches
    ≡ record (build_hourly_rollup hour openai model (sample ∷ slow ∷ sample ∷ slow ∷ [])) {
      total_cost_usd = cost_each (λ a b. a + b) hour openai model first.total_cost_usd batches;
    }
upsert_each-build_hourly_rollup_example =
    upsert_each-build_hourly_rollup (λ a b. a + b) hour openai model sample [] batches
      (((omega arith, (omega arith, omega arith)), tt), (omega arith, tt), (omega arith, tt))
      (
        (((omega arith, (omega arith, omega arith)), tt), (omega arith, tt), (omega arith, tt)),
        (
          (
            (
              (omega arith, (omega arith, omega arith)),
              ((omega arith, (omega arith, omega arith)), tt),
            ),
            (omega arith, (omega arith, tt)),
            (omega arith, (omega arith, tt)),
          ),
          tt,
        ),
      )
      (unfold ◌+ℤ◌ in (omega arith, omega arith, omega arith, omega arith))
