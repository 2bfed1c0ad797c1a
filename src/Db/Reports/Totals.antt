-- ===== src/Db/Reports/Totals.antt =====
-- How `GetErrorRates` and `GetProviderComparison` of internal/db/postgres.go agree with `GetSummary`.
use mathlib.Core.List.{Permᴰ}
use llmwatch.Base.{
  ℕ, ◌+◌, ◌+ℤ◌, Bytes, List, [], ◌∷◌, length, map, codes, ◌==◌, bytes_eq, if◌then◌else◌, ℤ, pos,
  pos_part, Float64, Result, ok, err, ok_injective, ◌≡◌, refl, sym, ap, ap₂, ◌∙◌, arith,
}
use llmwatch.Models.Views.{SummaryMetrics, ErrorRateByModel, ProviderComparison}
use llmwatch.Db.Calls.{Row}
use llmwatch.Db.Period.{interval_text}
use llmwatch.Db.Reports.{
  Aggregates, SummaryRow, rows_since, count_errors, group_by, same_model, same_provider,
  error_rate_of, summary_row, error_rate_row, comparison_row, Statements, summary_of, get_summary,
  get_error_rates, get_provider_comparison,
}
use llmwatch.Db.Reports.Groups.{add_up, add_up-Permᴰ, add_up-group_by, read_rows_all}

add_up-map :
    {A B : Type 0} (f : B → ℤ) (g : A → B) (xs : List A)
    → add_up f (map g xs) ≡ add_up (λ a. f (g a)) xs
add_up-map f g [] = refl
add_up-map f g (a ∷ xs) = ap (λ n. f (g a) +ℤ n) (add_up-map f g xs)

-- What the selects answer, as PostgreSQL documents it: the aggregates of the rows from the start of
-- the interval on, and one row for each group in any order. Of a select that fails nothing is said.
pub record IsReported {F : Type 0} ⦃fl : Float64 F⦄ (sql : Aggregates F) (P : Statements F)
    (rows : P.State → List (Row F)) (start : Bytes → P.State → ℤ) : Type 0 where
  pub summary :
      (text : Bytes) (s : P.State) {r : SummaryRow F}
      → (P.select_summary text s).1 ≡ ok r
      → r ≡ summary_row sql (rows_since (start text s) (rows s))
  pub rates :
      (text : Bytes) (s : P.State) {xs : List (ErrorRateByModel F)}
      → (P.select_error_rates text s).1 ≡ ok (map (λ a. ok a) xs, ok tt)
      → Permᴰ xs
          (map (error_rate_row sql) (group_by same_model (rows_since (start text s) (rows s))))
  pub comparison :
      (text : Bytes) (s : P.State) {xs : List (ProviderComparison F)}
      → (P.select_comparison text s).1 ≡ ok (map (λ a. ok a) xs, ok tt)
      → Permᴰ xs
          (map (comparison_row sql) (group_by same_provider (rows_since (start text s) (rows s))))

module _ {F : Type 0} ⦃fl : Float64 F⦄ (sql : Aggregates F) where
  error_weight : Row F → ℕ
  error_weight r = if r.status == codes "error" then 1 else 0

  count_errors-cons :
      (r : Row F) (rows : List (Row F))
      → count_errors (r ∷ rows) ≡ error_weight r + count_errors rows
  unfolding count_errors error_weight
  count_errors-cons r rows = ground arith

  rates_total :
      (rows : List (Row F))
      → add_up (λ r. r.total) (map (error_rate_row sql) (group_by same_model rows))
        ≡ pos (length rows)
  unfolding error_rate_row
  rates_total rows =
      add_up-map (λ r. r.total) (error_rate_row sql) (group_by same_model rows)
      ∙ add_up-group_by length (λ r. 1) refl (λ r rs. omega arith) same_model rows

  rates_errors :
      (rows : List (Row F))
      → add_up (λ r. r.errors) (map (error_rate_row sql) (group_by same_model rows))
        ≡ pos (count_errors rows)
  unfolding error_rate_row
  rates_errors rows =
      add_up-map (λ r. r.errors) (error_rate_row sql) (group_by same_model rows)
      ∙ add_up-group_by count_errors error_weight (unfold count_errors in refl) count_errors-cons
          same_model rows

  comparison_total :
      (rows : List (Row F))
      → add_up (λ r. r.total_calls) (map (comparison_row sql) (group_by same_provider rows))
        ≡ pos (length rows)
  unfolding comparison_row
  comparison_total rows =
      add_up-map (λ r. r.total_calls) (comparison_row sql) (group_by same_provider rows)
      ∙ add_up-group_by length (λ r. 1) refl (λ r rs. omega arith) same_provider rows

summary_of_ok :
    {F : Type 0} (since : ℤ) (answer : Result (SummaryRow F)) {m : SummaryMetrics F}
    → summary_of since answer ≡ ok m
    → (r : SummaryRow F) × (answer ≡ ok r)
      × (m.total_calls ≡ r.total_calls)
      × (m.error_rate ≡ r.error_rate)
unfolding summary_of
summary_of_ok since (err x) h = absurd (ground (arith, h))
summary_of_ok since (ok r) {m} h =
    let e = sym (ok_injective h) in (r, refl, ap (λ x. x.total_calls) e, ap (λ x. x.error_rate) e)

module _ {F : Type 0} ⦃fl : Float64 F⦄ (sql : Aggregates F) (P : Statements F)
    (rows : P.State → List (Row F)) (start : Bytes → P.State → ℤ)
    (laws : IsReported sql P rows start) where
  get_summary_row :
      (since : ℤ) (s : P.State) {m : SummaryMetrics F}
      → (get_summary P since s).1 ≡ ok m
      → let r = summary_row sql (rows_since (start (interval_text fl since) s) (rows s)) in
        (m.total_calls ≡ r.total_calls) × (m.error_rate ≡ r.error_rate)
  unfolding get_summary
  get_summary_row since s h =
      let text = interval_text fl since in
      let (r, answered, calls, rate) = summary_of_ok since (P.select_summary text s).1 h in
      let e = laws.summary text s answered in
      (calls ∙ ap (λ x. x.total_calls) e, rate ∙ ap (λ x. x.error_rate) e)

  -- Over a database that runs the three selects as PostgreSQL documents them, asked in one
  -- state for one duration: when they all succeed, the totals of the models of GetErrorRates
  -- and those of the providers of GetProviderComparison both add up to the total of GetSummary,
  -- and the error rate of GetSummary is that of the models' errors added up.
  pub reports_agree :
      (since : ℤ) (s : P.State) {m : SummaryMetrics F} {rates : List (ErrorRateByModel F)}
      {providers : List (ProviderComparison F)}
      → (get_summary P since s).1 ≡ ok m
      → (get_error_rates P since s).1 ≡ ok rates
      → (get_provider_comparison P since s).1 ≡ ok providers
      → let errors = add_up (λ r. r.errors) rates in
        (add_up (λ r. r.total) rates ≡ m.total_calls)
        × (add_up (λ r. r.total_calls) providers ≡ m.total_calls)
        × (m.error_rate ≡ error_rate_of sql (pos_part errors) (pos_part m.total_calls))
  unfolding get_error_rates get_provider_comparison summary_row
  reports_agree since s {m} {rates} h k l =
      let text = interval_text fl since in
      let found = rows_since (start text s) (rows s) in
      let (calls, rate) = get_summary_row since s h in
      let by_model = laws.rates text s (read_rows_all _ _ (P.select_error_rates text s).1 k) in
      let by_provider =
        laws.comparison text s (read_rows_all _ _ (P.select_comparison text s).1 l) in
      let errors = add_up-Permᴰ (λ r. r.errors) by_model ∙ rates_errors sql found in
      (
        add_up-Permᴰ (λ r. r.total) by_model ∙ rates_total sql found ∙ sym calls,
        add_up-Permᴰ (λ r. r.total_calls) by_provider ∙ comparison_total sql found ∙ sym calls,
        rate ∙ ap₂ (λ e n. error_rate_of sql (pos_part e) (pos_part n)) (sym errors) (sym calls),
      )
