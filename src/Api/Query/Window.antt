-- ===== src/Api/Query/Window.antt =====
-- From the parameter of `HandleGetSummary` in internal/api/handlers.go to the select that
-- internal/db/postgres.go sends.
use llmwatch.Base.{
  ℕ, ◌*◌, ◌≤◌, Bytes, codes, ◌++◌, pos, Float64, format_nat, Result, ok, err, wrapped, ◌≡◌, refl,
  ap, ◌∙◌, arith,
}
use llmwatch.Models.Views.{SummaryMetrics}
use llmwatch.Db.Period.{interval_text}
use llmwatch.Db.Period.Hours.{IsExact, interval_text_seconds, duration_string_hours}
use llmwatch.Db.Partition.{PartitionStore}
use llmwatch.Db.Reports.{SummaryRow, summary_of, get_summary}
use llmwatch.Db.Postgres.{Postgres, executor, statements, postgres_store}
use llmwatch.Api.Response.{Response, Body, respond}
use llmwatch.Api.Query.{hour_ns, answer, handle_get_summary}
use llmwatch.Api.Query.Bounds.{summary_as_asked}

-- The summary in a row of the select, with the text of its period.
abbrev pub summary_in : {F : Type 0} → Bytes → Result (SummaryRow F) → Result (SummaryMetrics F)
summary_in period (err x) = err (wrapped (codes "db: get summary") x)
summary_in period (ok r) = ok (record {
  total_calls = r.total_calls;
  total_cost_usd = r.total_cost;
  avg_latency_ms = r.avg_latency;
  error_rate = r.error_rate;
  period = period;
})

answer_cases :
    {F : Type 0} (r : Result (SummaryMetrics F))
    → answer (codes "failed to fetch summary") Body.summary r ≡ elim r [
      | ok m ↦ respond 200 (Body.summary m)
      | err _ ↦ respond 500 (Body.error_message (codes "failed to fetch summary"))
    ]
answer_cases (ok m) = refl
answer_cases (err x) = refl

module _ {F : Type 0} ⦃fl : Float64 F⦄ (exact : IsExact fl) (P : Postgres F) where
  summary_of_hours :
      (n : ℕ) (a : Result (SummaryRow F))
      → 1 ≤ n
      → summary_of (pos (n * hour_ns)) a ≡ summary_in (format_nat n ++ codes "h0m0s") a
  unfolding summary_of
  summary_of_hours n (err x) some_hours = refl
  summary_of_hours n (ok r) some_hours =
      ap
        (λ p. ok (record {
          total_calls = r.total_calls;
          total_cost_usd = r.total_cost;
          avg_latency_ms = r.avg_latency;
          error_rate = r.error_rate;
          period = p;
        }))
        (duration_string_hours n some_hours)

  interval_of_hours :
      (n : ℕ)
      → n ≤ 168
      → interval_text fl (pos (n * hour_ns)) ≡ format_nat (n * 3600) ++ codes " seconds"
  interval_of_hours n few =
      ap (λ d. interval_text fl (pos d)) {x = n * hour_ns} {y = n * 3600 * 1000000000} (omega arith)
      ∙ interval_text_seconds fl exact (n * 3600) (omega arith)

  get_summary_hours :
      (n : ℕ) (s : P.State)
      → 1 ≤ n
      → n ≤ 168
      → get_summary (statements P) (pos (n * hour_ns)) s ≡ (
          let (p, a) = P.select_summary (format_nat (n * 3600) ++ codes " seconds") s in
          (p, summary_in (format_nat n ++ codes "h0m0s") a))
  unfolding get_summary
  get_summary_hours n s some_hours few =
      let since = pos (n * hour_ns) in
      let text = format_nat (n * 3600) ++ codes " seconds" in
      ap (λ (t : Bytes). ((P.select_summary t s).0, summary_of since (P.select_summary t s).1))
        (interval_of_hours n few)
      ∙ ap (λ m. ((P.select_summary text s).0, m))
          (summary_of_hours n (P.select_summary text s).1 some_hours)

  -- In an arithmetic that has the natural numbers below 2 ^ 53 exactly: asked for a number of
  -- hours from 1 to 168, in decimal, HandleGetSummary over the store of PostgreSQL sends the
  -- select for that many hours in seconds, and answers with its row and the period
  -- "<hours>h0m0s", or with 500 when it fails.
  pub summary_window :
      (n : ℕ) (s : PartitionStore (executor P))
      → 1 ≤ n
      → n ≤ 168
      → handle_get_summary (postgres_store P) (format_nat n) s ≡ (
          let (p, a) = P.select_summary (format_nat (n * 3600) ++ codes " seconds") s.pool in
          (
            record s { pool = p },
            elim (summary_in (format_nat n ++ codes "h0m0s") a) [
              | ok r ↦ respond 200 (Body.summary r)
              | err _ ↦ respond 500 (Body.error_message (codes "failed to fetch summary"))
            ],
          ))
  summary_window n s some_hours few =
      summary_as_asked (postgres_store P) n s some_hours few
      ∙ ap
          (λ (r : P.State × Result (SummaryMetrics F)).
            (record s { pool = r.0 }, answer (codes "failed to fetch summary") Body.summary r.1))
          (get_summary_hours n s.pool some_hours few)
      ∙ ap
          (λ (r : Response F). (
            record s {
              pool = (P.select_summary (format_nat (n * 3600) ++ codes " seconds") s.pool).0;
            },
            r,
          ))
          (answer_cases (
            summary_in (format_nat n ++ codes "h0m0s")
              (P.select_summary (format_nat (n * 3600) ++ codes " seconds") s.pool).1))
