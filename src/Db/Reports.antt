-- ===== src/Db/Reports.antt =====
-- internal/db/postgres.go: `GetSummary`, `GetErrorRates`, `GetProviderComparison`,
-- `UpsertHourlyMetrics`, `HealthCheck`, and the statements that they send.

pub mod Groups
pub mod Totals
use llmwatch.Base.{
  ℕ, zero, suc, Bytes, codes, List, [], ◌∷◌, ◌++◌, length, map, Bool, ◌==◌, ◌&&◌, not, bytes_eq,
  if◌then◌else◌, ℤ, pos, ltb_ℤ, Float64, Error, Result, ok, err, wrapped,
}
use llmwatch.Models.Views.{SummaryMetrics, ErrorRateByModel, ProviderComparison}
use llmwatch.Db.Hourly.{HourlyMetrics}
use llmwatch.Db.Calls.{Row}
use llmwatch.Db.Period.{interval_text, duration_string}

-- What PostgreSQL computes of the values of a group: SUM and AVG, a quotient of two counts as a
-- float, and PERCENTILE_CONT(0.95), each read as a float64.
pub record Aggregates (F : Type 0) : Type 0 where
  pub sum : List F → F
  pub avg : List ℤ → F
  pub quotient : ℕ → ℕ → F
  pub percentile_95 : List ℤ → F

-- The columns of the summary.
pub record SummaryRow (F : Type 0) : Type 0 where
  pub total_calls : ℤ
  pub total_cost : F
  pub avg_latency : F
  pub error_rate : F

-- A row of GROUP BY: the first call of the group and the others.
abbrev pub Group : Type 0 → Type 0
Group F = Row F × List (Row F)

-- The rows of a select: each read or with the error of its Scan, and at the end rows.Err().
abbrev pub Rows : Type 0 → Type 0
Rows A = List (Result A) × Result (Unit {0})

module _ {F : Type 0} where
  -- WHERE created_at >= start
  unfoldable pub rows_since : ℤ → List (Row F) → List (Row F)
  rows_since start [] = []
  rows_since start (r ∷ rows) =
      let rest = rows_since start rows in if ltb_ℤ r.created_at start then rest else r ∷ rest

  -- SUM(CASE WHEN status = 'error' THEN 1 ELSE 0 END)
  unfoldable pub count_errors : List (Row F) → ℕ
  count_errors [] = 0
  count_errors (r ∷ rows) =
      let rest = count_errors rows in if r.status == codes "error" then suc rest else rest

  -- A row joins the first group whose key is its own.
  unfoldable pub add_row : (Row F → Row F → Bool) → Row F → List (Group F) → List (Group F)
  add_row same r [] = (r, []) ∷ []
  add_row same r ((first, others) ∷ groups) =
      let rest = add_row same r groups in
      if same r first then (r, first ∷ others) ∷ groups else (first, others) ∷ rest

  -- GROUP BY
  unfoldable pub group_by : (Row F → Row F → Bool) → List (Row F) → List (Group F)
  unfolding add_row
  group_by same [] = []
  group_by same (r ∷ rows) = add_row same r (group_by same rows)

  abbrev pub same_model : Row F → Row F → Bool
  same_model a b = (a.provider == b.provider) && (a.model == b.model)

  abbrev pub same_provider : Row F → Row F → Bool
  same_provider a b = a.provider == b.provider

module _ {F : Type 0} ⦃fl : Float64 F⦄ (sql : Aggregates F) where
  -- COALESCE(errors::float / NULLIF(COUNT(*), 0), 0)
  unfoldable pub error_rate_of : ℕ → ℕ → F
  error_rate_of errors zero = fl.decimal 0 0
  error_rate_of errors (suc n) = sql.quotient errors (suc n)

  -- COALESCE of an aggregate that is NULL over no rows.
  abbrev pub or_zero : {A : Type 0} → (List A → F) → List A → F
  or_zero f [] = fl.decimal 0 0
  or_zero f (x ∷ xs) = f (x ∷ xs)

  unfoldable pub summary_row : List (Row F) → SummaryRow F
  unfolding error_rate_of count_errors
  summary_row rows = record {
    total_calls = pos (length rows);
    total_cost = or_zero sql.sum (map (λ r. r.cost_usd) rows);
    avg_latency = or_zero sql.avg (map (λ r. r.latency_ms) rows);
    error_rate = error_rate_of (count_errors rows) (length rows);
  }

  unfoldable pub error_rate_row : Group F → ErrorRateByModel F
  unfolding error_rate_of count_errors
  error_rate_row (first, others) =
      let rows = first ∷ others in
      record {
        provider = first.provider;
        model = first.model;
        total = pos (length rows);
        errors = pos (count_errors rows);
        error_rate = error_rate_of (count_errors rows) (length rows);
      }

  unfoldable pub comparison_row : Group F → ProviderComparison F
  unfolding error_rate_of count_errors
  comparison_row (first, others) =
      let rows = first ∷ others in
      record {
        provider = first.provider;
        total_calls = pos (length rows);
        avg_latency_ms = or_zero sql.avg (map (λ r. r.latency_ms) rows);
        total_cost_usd = or_zero sql.sum (map (λ r. r.cost_usd) rows);
        error_rate = error_rate_of (count_errors rows) (length rows);
        p95_latency_ms = or_zero sql.percentile_95 (map (λ r. r.latency_ms) rows);
      }

-- The pool with the other statements; the argument of a select is the text of its interval.
pub record Statements (F : Type 0) : Type 1 where
  pub State : Type 0
  pub select_summary : Bytes → State → State × Result (SummaryRow F)
  pub select_error_rates : Bytes → State → State × Result (Rows (ErrorRateByModel F))
  pub select_comparison : Bytes → State → State × Result (Rows (ProviderComparison F))
  pub exec_upsert : HourlyMetrics F → State → State × Result (Unit {0})
  pub ping : State → State × Result (Unit {0})

-- The loop over the rows, with the results so far; the first row that cannot be read ends it.
unfoldable pub scan_each :
    {A : Type 0} → Bytes → List (Result A) → Result (Unit {0}) → List A → Result (List A)
scan_each text [] (ok _) found = ok found
scan_each text [] (err x) found = err x
scan_each text (ok a ∷ rows) end found = scan_each text rows end (found ++ a ∷ [])
scan_each text (err x ∷ rows) end found = err (wrapped text x)

-- The error of the query, or the loop.
unfoldable pub read_rows : {A : Type 0} → Bytes → Bytes → Result (Rows A) → Result (List A)
unfolding scan_each
read_rows query_text scan_text (err x) = err (wrapped query_text x)
read_rows query_text scan_text (ok (rows, end)) = scan_each scan_text rows end []

unfoldable pub summary_of : {F : Type 0} → ℤ → Result (SummaryRow F) → Result (SummaryMetrics F)
unfolding duration_string
summary_of since (err x) = err (wrapped (codes "db: get summary") x)
summary_of since (ok r) = ok (record {
  total_calls = r.total_calls;
  total_cost_usd = r.total_cost;
  avg_latency_ms = r.avg_latency;
  error_rate = r.error_rate;
  period = duration_string since;
})

module _ {F : Type 0} ⦃fl : Float64 F⦄ (P : Statements F) where
  unfoldable pub get_summary : ℤ → P.State → P.State × Result (SummaryMetrics F)
  unfolding interval_text summary_of
  get_summary since s =
      let (s', answer) = P.select_summary (interval_text fl since) s in
      (s', summary_of since answer)

  unfoldable pub get_error_rates : ℤ → P.State → P.State × Result (List (ErrorRateByModel F))
  unfolding interval_text read_rows
  get_error_rates since s =
      let (s', answer) = P.select_error_rates (interval_text fl since) s in
      (s', read_rows (codes "db: get error rates") (codes "db: scan error rate row") answer)

  unfoldable pub get_provider_comparison :
      ℤ → P.State → P.State × Result (List (ProviderComparison F))
  unfolding interval_text read_rows
  get_provider_comparison since s =
      let (s', answer) = P.select_comparison (interval_text fl since) s in
      (
        s',
        read_rows (codes "db: get provider comparison") (codes "db: scan provider comparison row")
            answer,
      )

module _ {F : Type 0} (P : Statements F) where
  unfoldable pub upsert_hourly_metrics : HourlyMetrics F → P.State → P.State × Result (Unit {0})
  upsert_hourly_metrics hm s =
      let (s', answer) = P.exec_upsert hm s in
      (
        s',
        elim answer [ err x ↦ err (wrapped (codes "db: upsert hourly metrics") x) | ok _ ↦ ok tt ],
      )

  unfoldable pub health_check : P.State → P.State × Result (Unit {0})
  health_check s = P.ping s
