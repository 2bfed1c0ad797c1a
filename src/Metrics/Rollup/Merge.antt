-- ===== src/Metrics/Rollup/Merge.antt =====
-- The rollup of two batches against the upsert of one rollup on the other.
use llmwatch.Base.{
  ◌^◌, ◌<◌, Bytes, List, [], ◌∷◌, ◌++◌, ◌≡◌, refl, sym, ◌∙◌, ap, ap₂, length, length-append, All,
  All-append, ℤ, pos, ◌+ℤ◌, ◌≤ℤ◌, IsInt64, int_laws, arith, Float64, inr, ◌⊎◌, wrap64,
}
use llmwatch.Models.{LlmCallEvent}
use llmwatch.Db.Hourly.{HourlyMetrics, merge_row, least, greatest}
use llmwatch.Metrics.Rollup.{build_hourly_rollup, empty_rollup, add_event, reset_min}
use mathlib.Core.List.{foldl}
use llmwatch.Metrics.Rollup.Sums.{
  sum_of, succeeded, failed, build_hourly_rollup-HasSums, nonneg_count, succeeded_small,
  failed_small,
}
use llmwatch.Metrics.Rollup.Range.{IsLatency, build_hourly_rollup_range}
use llmwatch.Metrics.Rollup.Extremes.{
  least-IsLeast, greatest-IsGreatest, IsLeast-unique, IsGreatest-unique,
}

assoc : (a b c : ℤ) → a +ℤ (b +ℤ c) ≡ a +ℤ b +ℤ c
assoc a b c = omega int_laws

zero_left : (a : ℤ) → a ≡ pos 0 +ℤ a
zero_left a = omega int_laws

-- An exact sum that stays in the range of int64.
abbrev pub Fits : ℤ → Type 0
Fits a = (pos 0 ≤ℤ a) × IsInt64 a

wrap64-+ℤ :
    (a b c : ℤ) → c ≡ a +ℤ b → pos 0 ≤ℤ a → pos 0 ≤ℤ b → IsInt64 c → wrap64 a +ℤ wrap64 b ≡ wrap64 c
unfolding wrap64 ◌+ℤ◌
wrap64-+ℤ a b c e ha hb fits = ground arith

module _ {F : Type 0} where
  pub sum_of-append :
      (figure : LlmCallEvent F → ℤ) (xs ys : List (LlmCallEvent F))
      → sum_of figure (xs ++ ys) ≡ sum_of figure xs +ℤ sum_of figure ys
  sum_of-append figure [] ys = zero_left _
  sum_of-append figure (e ∷ xs) ys =
      ap (λ a. figure e +ℤ a) (sum_of-append figure xs ys) ∙ assoc _ _ _

  pub sum_of_nonneg :
      (figure : LlmCallEvent F → ℤ) (xs : List (LlmCallEvent F))
      → All (λ e. pos 0 ≤ℤ figure e) xs
      → pos 0 ≤ℤ sum_of figure xs
  sum_of_nonneg figure [] h = omega arith
  sum_of_nonneg figure (e ∷ xs) h = omega (int_laws, h.0, sum_of_nonneg figure xs h.1)

  -- Every event has a latency and token counts that are not negative.
  abbrev pub Plain : List (LlmCallEvent F) → Type 0
  Plain xs =
      All (λ e. IsLatency e.latency_ms) xs
      × All (λ e. pos 0 ≤ℤ e.input_tokens) xs
      × All (λ e. pos 0 ≤ℤ e.output_tokens) xs

  -- The sums over the events are in the range of int64, and so is their number.
  abbrev pub InRange : List (LlmCallEvent F) → Type 0
  InRange xs =
      (length xs < 2 ^ 63)
      × IsInt64 (sum_of (λ e. e.latency_ms) xs)
      × IsInt64 (sum_of (λ e. e.input_tokens) xs)
      × IsInt64 (sum_of (λ e. e.output_tokens) xs)

  pub latency_nonneg :
      (xs : List (LlmCallEvent F))
      → All (λ e. IsLatency e.latency_ms) xs
      → All (λ e. pos 0 ≤ℤ e.latency_ms) xs
  latency_nonneg [] h = tt
  latency_nonneg (e ∷ xs) (h, hs) = (h.0, latency_nonneg xs hs)

  succeeded_nonneg : (xs : List (LlmCallEvent F)) → All (λ e. pos 0 ≤ℤ succeeded e) xs
  succeeded_nonneg [] = tt
  succeeded_nonneg (e ∷ xs) = (ground arith, succeeded_nonneg xs)

  failed_nonneg : (xs : List (LlmCallEvent F)) → All (λ e. pos 0 ≤ℤ failed e) xs
  failed_nonneg [] = tt
  failed_nonneg (e ∷ xs) = (ground arith, failed_nonneg xs)

  one_nonneg : (xs : List (LlmCallEvent F)) → All (λ e. pos 0 ≤ℤ pos 1) xs
  one_nonneg [] = tt
  one_nonneg (e ∷ xs) = (omega arith, one_nonneg xs)

  -- The wrapped sums of two batches add up to that of both, if the whole sum is in range.
  sums_add :
      (figure : LlmCallEvent F → ℤ) (xs ys : List (LlmCallEvent F))
      → All (λ e. pos 0 ≤ℤ figure e) xs
      → All (λ e. pos 0 ≤ℤ figure e) ys
      → IsInt64 (sum_of figure (xs ++ ys))
      → wrap64 (sum_of figure xs) +ℤ wrap64 (sum_of figure ys) ≡ wrap64 (sum_of figure (xs ++ ys))
  sums_add figure xs ys hx hy fits =
      wrap64-+ℤ _ _ _ (sum_of-append figure xs ys) (sum_of_nonneg figure xs hx)
        (sum_of_nonneg figure ys hy) fits

  joined_sums :
      (figure : LlmCallEvent F → ℤ) (xs ys : List (LlmCallEvent F)) {a b c : ℤ}
      → a ≡ wrap64 (sum_of figure xs)
      → b ≡ wrap64 (sum_of figure ys)
      → c ≡ wrap64 (sum_of figure (xs ++ ys))
      → All (λ e. pos 0 ≤ℤ figure e) xs
      → All (λ e. pos 0 ≤ℤ figure e) ys
      → IsInt64 (sum_of figure (xs ++ ys))
      → a +ℤ b ≡ c
  joined_sums figure xs ys ea eb ec hx hy fits =
      ap₂ ◌+ℤ◌ ea eb ∙ sums_add figure xs ys hx hy fits ∙ sym ec

  -- The number of successes, like any count, is in range when the number of events is.
  count_IsInt64 :
      (figure : LlmCallEvent F → ℤ)
      → ((e : LlmCallEvent F) → (figure e ≡ pos 0) ⊎ (figure e ≡ pos 1))
      → (xs : List (LlmCallEvent F)) → length xs < 2 ^ 63
      → IsInt64 (sum_of figure xs)
  count_IsInt64 figure small xs short =
      let (n, exact, bound) = nonneg_count figure small xs in rw exact (omega arith)

module _ {F : Type 0} ⦃fl : Float64 F⦄ where
  loop_labels :
      (events : List (LlmCallEvent F)) (hm : HourlyMetrics F)
      → let r = foldl add_event hm events in
        (r.hour_bucket ≡ hm.hour_bucket) × (r.provider ≡ hm.provider) × (r.model ≡ hm.model)
  unfolding add_event
  loop_labels [] hm = (refl, refl, refl)
  loop_labels (e ∷ events) hm = loop_labels events (add_event hm e)

  reset_min_labels :
      (hm : HourlyMetrics F)
      → let r = reset_min hm in
        (r.hour_bucket ≡ hm.hour_bucket) × (r.provider ≡ hm.provider) × (r.model ≡ hm.model)
  unfolding reset_min
  reset_min_labels hm = ground arith

  -- A rollup of the hour, the provider and the model.
  labels :
      (hour : ℤ) (provider model : Bytes) (events : List (LlmCallEvent F))
      → let r = build_hourly_rollup hour provider model events in
        (r.hour_bucket ≡ hour) × (r.provider ≡ provider) × (r.model ≡ model)
  unfolding build_hourly_rollup
  labels hour provider model events =
      let start = empty_rollup {F = F} hour provider model in
      let (a, b, c) = reset_min_labels (foldl add_event start events) in
      let (a', b', c') = loop_labels events start in (a ∙ a', b ∙ b', c ∙ c')

  joined_range :
      (hour : ℤ) (provider model : Bytes) (x y : LlmCallEvent F) (xs ys : List (LlmCallEvent F))
      → All (λ e. IsLatency e.latency_ms) (x ∷ xs)
      → All (λ e. IsLatency e.latency_ms) (y ∷ ys)
      → length ((x ∷ xs) ++ y ∷ ys) < 2 ^ 63
      → let a = build_hourly_rollup {F = F} hour provider model (x ∷ xs) in
        let b = build_hourly_rollup {F = F} hour provider model (y ∷ ys) in
        let c = build_hourly_rollup {F = F} hour provider model ((x ∷ xs) ++ y ∷ ys) in
        (least a.min_latency_ms b.min_latency_ms ≡ c.min_latency_ms)
        × (greatest a.max_latency_ms b.max_latency_ms ≡ c.max_latency_ms)
  joined_range hour provider model x y xs ys hx hy short =
      let sizes = length-append {0} (x ∷ xs) (y ∷ ys) in
      let (la, ga) = build_hourly_rollup_range {F = F} hour provider model x xs (omega arith) hx in
      let (lb, gb) = build_hourly_rollup_range {F = F} hour provider model y ys (omega arith) hy in
      let (lc, gc) =
        build_hourly_rollup_range {F = F} hour provider model x (xs ++ y ∷ ys) short
          (All-append _ (x ∷ xs) (y ∷ ys) hx hy) in
      (
        IsLeast-unique {F = F} _ _ ((x ∷ xs) ++ y ∷ ys) (least-IsLeast _ _ (x ∷ xs) (y ∷ ys) la lb)
            lc,
        IsGreatest-unique {F = F} _ _ ((x ∷ xs) ++ y ∷ ys)
            (greatest-IsGreatest _ _ (x ∷ xs) (y ∷ ys) ga gb) gc,
      )

  -- Upserting the rollup of a second batch on the row of a first one, neither empty, gives the
  -- rollup of both in every field but the cost, which is the database's sum of the two, if
  -- latencies and token counts are not negative and the sums stay in range.
  pub merge_row-build_hourly_rollup :
      (add_cost : F → F → F) (hour : ℤ) (provider model : Bytes) (x y : LlmCallEvent F)
      (xs ys : List (LlmCallEvent F))
      → Plain (x ∷ xs)
      → Plain (y ∷ ys)
      → InRange ((x ∷ xs) ++ y ∷ ys)
      → let rollup = build_hourly_rollup {F = F} hour provider model in
        let first = rollup (x ∷ xs) in
        let second = rollup (y ∷ ys) in
        merge_row add_cost first second ≡ record (rollup ((x ∷ xs) ++ y ∷ ys)) {
          total_cost_usd = add_cost first.total_cost_usd second.total_cost_usd;
        }
  unfolding merge_row
  merge_row-build_hourly_rollup add_cost hour provider model x y xs ys hx hy fits =
      let p = x ∷ xs in
      let q = y ∷ ys in
      let a = build_hourly_rollup-HasSums {F = F} hour provider model p in
      let b = build_hourly_rollup-HasSums {F = F} hour provider model q in
      let c = build_hourly_rollup-HasSums {F = F} hour provider model (p ++ q) in
      let (ha, pa, ma) = labels hour provider model p in
      let (hc, pc, mc) = labels hour provider model (p ++ q) in
      let (low, high) = joined_range hour provider model x y xs ys hx.0 hy.0 fits.0 in
      λ i. record {
        hour_bucket = (ha ∙ sym hc) i;
        provider = (pa ∙ sym pc) i;
        model = (ma ∙ sym mc) i;
        total_calls =
            joined_sums _ p q a.total_calls b.total_calls c.total_calls (one_nonneg p)
              (one_nonneg q) (count_IsInt64 _ (λ e. inr refl) (p ++ q) fits.0) i;
        success_calls =
            joined_sums _ p q a.success_calls b.success_calls c.success_calls (succeeded_nonneg p)
              (succeeded_nonneg q) (count_IsInt64 _ succeeded_small (p ++ q) fits.0) i;
        error_calls =
            joined_sums _ p q a.error_calls b.error_calls c.error_calls (failed_nonneg p)
              (failed_nonneg q) (count_IsInt64 _ failed_small (p ++ q) fits.0) i;
        total_cost_usd =
            add_cost (build_hourly_rollup hour provider model p).total_cost_usd
              (build_hourly_rollup hour provider model q).total_cost_usd;
        total_latency_ms =
            joined_sums _ p q a.total_latency b.total_latency c.total_latency
              (latency_nonneg p hx.0) (latency_nonneg q hy.0) fits.1 i;
        min_latency_ms = low i;
        max_latency_ms = high i;
        total_input_tokens =
            joined_sums _ p q a.total_input b.total_input c.total_input hx.1 hy.1 fits.2 i;
        total_output_tokens =
            joined_sums _ p q a.total_output b.total_output c.total_output hx.2 hy.2 fits.3 i;
      }
