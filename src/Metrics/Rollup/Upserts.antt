-- ===== src/Metrics/Rollup/Upserts.antt =====
-- The rollups of any number of batches, upserted one after another.
use llmwatch.Base.{
  Bytes, List, [], ◌∷◌, ◌++◌, append_assoc, append-nil, ◌≡◌, refl, sym, ◌∙◌, ap, subst,
  length-append, All, All-append, ℤ, pos, ◌+ℤ◌, ◌≤ℤ◌, IsInt64, arith, Float64,
}
use llmwatch.Models.{LlmCallEvent}
use llmwatch.Db.Hourly.{HourlyMetrics, merge_row}
use llmwatch.Metrics.Rollup.{build_hourly_rollup}
use llmwatch.Metrics.Rollup.Sums.{sum_of}
use llmwatch.Metrics.Rollup.Merge.{
  Plain, InRange, sum_of-append, sum_of_nonneg, latency_nonneg, merge_row-build_hourly_rollup,
}

first_part : (a b c : ℤ) → c ≡ a +ℤ b → pos 0 ≤ℤ a → pos 0 ≤ℤ b → IsInt64 c → IsInt64 a
unfolding ◌+ℤ◌
first_part a b c e ha hb fits = ground arith

module _ {F : Type 0} where
  -- All the events of the batches, each given by its first event and the others.
  abbrev pub joined : List (LlmCallEvent F × List (LlmCallEvent F)) → List (LlmCallEvent F)
  joined [] = []
  joined ((y, ys) ∷ batches) = (y ∷ ys) ++ joined batches

  sum_of_part :
      (figure : LlmCallEvent F → ℤ) (xs ys : List (LlmCallEvent F))
      → All (λ e. pos 0 ≤ℤ figure e) xs
      → All (λ e. pos 0 ≤ℤ figure e) ys
      → IsInt64 (sum_of figure (xs ++ ys))
      → IsInt64 (sum_of figure xs)
  sum_of_part figure xs ys hx hy fits =
      first_part _ _ _ (sum_of-append figure xs ys) (sum_of_nonneg figure xs hx)
        (sum_of_nonneg figure ys hy) fits

  -- A part of what is in range is in range.
  part-InRange :
      (xs ys : List (LlmCallEvent F)) → Plain xs → Plain ys → InRange (xs ++ ys) → InRange xs
  part-InRange xs ys hx hy fits =
      let size = length-append {0} xs ys in
      (
        omega (arith, size, fits.0),
        sum_of_part _ xs ys (latency_nonneg xs hx.0) (latency_nonneg ys hy.0) fits.1,
        sum_of_part _ xs ys hx.1 hy.1 fits.2,
        sum_of_part _ xs ys hx.2 hy.2 fits.3,
      )

  join-Plain : (xs ys : List (LlmCallEvent F)) → Plain xs → Plain ys → Plain (xs ++ ys)
  join-Plain xs ys hx hy =
      (All-append _ xs ys hx.0 hy.0, All-append _ xs ys hx.1 hy.1, All-append _ xs ys hx.2 hy.2)

  joined-Plain :
      (batches : List (LlmCallEvent F × List (LlmCallEvent F)))
      → All (λ b. Plain (b.0 ∷ b.1)) batches
      → Plain (joined batches)
  joined-Plain [] h = (tt, tt, tt)
  joined-Plain ((y, ys) ∷ batches) (here, there) =
      join-Plain (y ∷ ys) (joined batches) here (joined-Plain batches there)

module _ {F : Type 0} ⦃fl : Float64 F⦄ (add_cost : F → F → F) (hour : ℤ)
    (provider model : Bytes) where
  abbrev rollup : List (LlmCallEvent F) → HourlyMetrics F
  rollup = build_hourly_rollup hour provider model

  -- The row after the upserts of the rollups.
  abbrev pub upsert_each :
      HourlyMetrics F → List (LlmCallEvent F × List (LlmCallEvent F)) → HourlyMetrics F
  upsert_each row [] = row
  upsert_each row ((y, ys) ∷ batches) =
      upsert_each (merge_row add_cost row (build_hourly_rollup hour provider model (y ∷ ys)))
        batches

  -- The database's sum of the costs.
  abbrev pub cost_each : F → List (LlmCallEvent F × List (LlmCallEvent F)) → F
  cost_each cost [] = cost
  cost_each cost ((y, ys) ∷ batches) =
      cost_each (add_cost cost (build_hourly_rollup hour provider model (y ∷ ys)).total_cost_usd)
        batches

  abbrev costing : F → HourlyMetrics F → HourlyMetrics F
  costing cost r = record r { total_cost_usd = cost }

  merge_row-costing :
      (cost : F) (r q : HourlyMetrics F)
      → merge_row add_cost (costing cost r) q
        ≡ costing (add_cost cost q.total_cost_usd) (merge_row add_cost r q)
  unfolding merge_row
  merge_row-costing cost r q = refl

  upserts_from :
      (cost : F) (x : LlmCallEvent F) (xs : List (LlmCallEvent F))
      (batches : List (LlmCallEvent F × List (LlmCallEvent F)))
      → Plain (x ∷ xs)
      → All (λ b. Plain (b.0 ∷ b.1)) batches
      → InRange ((x ∷ xs) ++ joined batches)
      → upsert_each (costing cost (rollup (x ∷ xs))) batches
        ≡ costing (cost_each cost batches) (rollup ((x ∷ xs) ++ joined batches))
  upserts_from cost x xs [] hx hb fits =
      ap (λ ys. costing cost (rollup (x ∷ ys))) (sym (append-nil xs))
  upserts_from cost x xs ((y, ys) ∷ batches) hx (hy, hb) fits =
      let p = x ∷ xs in
      let q = y ∷ ys in
      let rest = joined batches in
      let one = append_assoc p q rest in
      let whole : InRange ((p ++ q) ++ rest) = subst InRange (sym one) fits in
      let both = join-Plain p q hx hy in
      let part = part-InRange (p ++ q) rest both (joined-Plain batches hb) whole in
      let cost' = add_cost cost (rollup q).total_cost_usd in
      let step =
        merge_row-costing cost (rollup p) (rollup q)
        ∙ ap (costing cost')
            (merge_row-build_hourly_rollup add_cost hour provider model x y xs ys hx hy part) in
      ap (λ r. upsert_each r batches) step
      ∙ upserts_from cost' x (xs ++ q) batches both hb whole
      ∙ ap (λ es. costing (cost_each cost' batches) (rollup es)) one

  -- Upserting the rollups of any number of batches one after another on the row of a first one,
  -- no batch empty, gives the rollup of all their events in every field but the cost, which is
  -- the database's sum of the costs, if latencies and token counts are not negative and the
  -- sums stay in range.
  pub upsert_each-build_hourly_rollup :
      (x : LlmCallEvent F) (xs : List (LlmCallEvent F))
      (batches : List (LlmCallEvent F × List (LlmCallEvent F)))
      → Plain (x ∷ xs)
      → All (λ b. Plain (b.0 ∷ b.1)) batches
      → InRange ((x ∷ xs) ++ joined batches)
      → let first = build_hourly_rollup {F = F} hour provider model (x ∷ xs) in
        upsert_each first batches
        ≡ record (build_hourly_rollup hour provider model ((x ∷ xs) ++ joined batches)) {
          total_cost_usd = cost_each first.total_cost_usd batches;
        }
  upsert_each-build_hourly_rollup x xs batches hx hb fits =
      upserts_from (rollup (x ∷ xs)).total_cost_usd x xs batches hx hb fits
