-- ===== src/Metrics/Rollup/Sums.antt =====
-- The counts and sums of a rollup.
use mathlib.Core.List.{foldl}
use llmwatch.Base.{
  ℕ, ◌^◌, ◌≤◌, ◌<◌, Bytes, List, [], ◌∷◌, ◌≡◌, refl, sym, ◌∙◌, ap, length, ◌==◌, bytes_eq,
  if◌then◌else◌, ℤ, pos, ◌+ℤ◌, add64, wrap64, IsInt64, wrap64_in_range, wrap64-IsInt64, int_laws,
  arith, Float64, int_eq, Bool-cases, inl, inr, suc, ◌⊎◌,
}
use llmwatch.Models.{LlmCallEvent, success}
use llmwatch.Db.Hourly.{HourlyMetrics}
use llmwatch.Metrics.Rollup.{empty_rollup, add_event, reset_min, build_hourly_rollup}

add64-wrap64 : (a b : ℤ) → wrap64 (wrap64 a +ℤ b) ≡ wrap64 (a +ℤ b)
unfolding wrap64 ◌+ℤ◌
add64-wrap64 a b = ground arith

add64_zero : (a : ℤ) → IsInt64 a → wrap64 (a +ℤ pos 0) ≡ a
unfolding ◌+ℤ◌ wrap64
add64_zero a h = ground arith

+ℤ_assoc : (a b c : ℤ) → a +ℤ b +ℤ c ≡ a +ℤ (b +ℤ c)
+ℤ_assoc a b c = omega int_laws

zero_sum : (a : ℤ) → wrap64 (pos 0 +ℤ a) ≡ wrap64 a
zero_sum a = ap wrap64 (omega int_laws)

add64_nothing : (a : ℤ) → IsInt64 a → add64 a (pos 0) ≡ a
unfolding add64
add64_nothing a h = add64_zero a h

one_more : (n : ℕ) → pos 1 +ℤ pos n ≡ pos (suc n)
unfolding ◌+ℤ◌
one_more n = ground arith

none_more : (n : ℕ) → pos 0 +ℤ pos n ≡ pos n
unfolding ◌+ℤ◌
none_more n = ground arith

exact_count : (a : ℤ) (n : ℕ) → a ≡ pos n → n < 2 ^ 63 → wrap64 a ≡ pos n
exact_count a n e h = rw e (wrap64_in_range (pos n) (omega arith))

one_left : (a b : ℤ) → (pos 1 +ℤ a) +ℤ (pos 0 +ℤ b) ≡ pos 1 +ℤ (a +ℤ b)
one_left a b = omega int_laws

one_right : (a b : ℤ) → (pos 0 +ℤ a) +ℤ (pos 1 +ℤ b) ≡ pos 1 +ℤ (a +ℤ b)
one_right a b = omega int_laws

module _ {F : Type 0} where
  -- The exact sum of a figure over events.
  abbrev pub sum_of : (LlmCallEvent F → ℤ) → List (LlmCallEvent F) → ℤ
  sum_of figure [] = pos 0
  sum_of figure (e ∷ events) = figure e +ℤ sum_of figure events

  -- 1 for an event with the status "success", 0 for any other.
  abbrev pub succeeded : LlmCallEvent F → ℤ
  succeeded e = if e.status == success then pos 1 else pos 0

  abbrev pub failed : LlmCallEvent F → ℤ
  failed e = if e.status == success then pos 0 else pos 1

  pub count_length :
      (events : List (LlmCallEvent F)) → sum_of (λ e. pos 1) events ≡ pos (length events)
  count_length [] = refl
  count_length (e ∷ events) = ap (λ a. pos 1 +ℤ a) (count_length events) ∙ one_more _

  count_split :
      (events : List (LlmCallEvent F))
      → sum_of succeeded events +ℤ sum_of failed events ≡ pos (length events)
  count_split [] = unfold ◌+ℤ◌ in refl
  count_split (e ∷ events) =
      let rest = ap (λ a. pos 1 +ℤ a) (count_split events) ∙ one_more (length events) in
      elim (Bool-cases (e.status == success)) [
        | inl good ↦ rw good (one_left _ _ ∙ rest)
        | inr bad ↦ rw bad (one_right _ _ ∙ rest)
      ]

  pub nonneg_count :
      (figure : LlmCallEvent F → ℤ)
      → ((e : LlmCallEvent F) → (figure e ≡ pos 0) ⊎ (figure e ≡ pos 1))
      → (events : List (LlmCallEvent F))
      → (n : ℕ) × (sum_of figure events ≡ pos n) × (n ≤ length events)
  nonneg_count figure small [] = (0, refl, omega arith)
  nonneg_count figure small (e ∷ events) =
      let (n, exact, bound) = nonneg_count figure small events in
      elim (small e) [
        | inl z ↦ (n, rw (z, exact) (none_more n), omega arith)
        | inr o ↦ (suc n, rw (o, exact) (one_more n), omega arith)
      ]

  pub succeeded_small : (e : LlmCallEvent F) → (succeeded e ≡ pos 0) ⊎ (succeeded e ≡ pos 1)
  succeeded_small e = elim (Bool-cases (e.status == success)) [
    | inl good ↦ inr (rw good)
    | inr bad ↦ inl (rw bad)
  ]

  pub failed_small : (e : LlmCallEvent F) → (failed e ≡ pos 0) ⊎ (failed e ≡ pos 1)
  failed_small e = elim (Bool-cases (e.status == success)) [
    | inl good ↦ inl (rw good)
    | inr bad ↦ inr (rw bad)
  ]

module _ {F : Type 0} ⦃fl : Float64 F⦄ where
  -- A field to which each round adds a figure of its event holds the sum of the figures modulo
  -- 2 ^ 64.
  loop_sum :
      (field : HourlyMetrics F → ℤ) (figure : LlmCallEvent F → ℤ)
      → ((hm : HourlyMetrics F) (e : LlmCallEvent F)
          → IsInt64 (field hm)
          → field (add_event hm e) ≡ add64 (field hm) (figure e))
      → (events : List (LlmCallEvent F)) (hm : HourlyMetrics F) → IsInt64 (field hm)
      → field (foldl add_event hm events) ≡ wrap64 (field hm +ℤ sum_of figure events)
  unfolding add64
  loop_sum field figure round [] hm h = sym (add64_zero (field hm) h)
  loop_sum field figure round (e ∷ events) hm h =
      let step = round hm e h in
      loop_sum field figure round events (add_event hm e) (rw step (wrap64-IsInt64 _))
      ∙ ap (λ x. wrap64 (x +ℤ sum_of figure events)) step
      ∙ add64-wrap64 _ _
      ∙ ap wrap64 (+ℤ_assoc _ _ _)

  -- What the loop has added up when it ends.
  pub record HasSums (events : List (LlmCallEvent F)) (hm : HourlyMetrics F) : Type 0 where
    pub total_calls : hm.total_calls ≡ wrap64 (sum_of (λ e. pos 1) events)
    pub success_calls : hm.success_calls ≡ wrap64 (sum_of succeeded events)
    pub error_calls : hm.error_calls ≡ wrap64 (sum_of failed events)
    pub total_latency : hm.total_latency_ms ≡ wrap64 (sum_of (λ e. e.latency_ms) events)
    pub total_input : hm.total_input_tokens ≡ wrap64 (sum_of (λ e. e.input_tokens) events)
    pub total_output : hm.total_output_tokens ≡ wrap64 (sum_of (λ e. e.output_tokens) events)

  loop-HasSums :
      (hour : ℤ) (provider model : Bytes) (events : List (LlmCallEvent F))
      → HasSums events (foldl add_event (empty_rollup hour provider model) events)
  unfolding empty_rollup add_event
  loop-HasSums hour provider model events =
      let start = empty_rollup hour provider model in
      record {
        total_calls =
            loop_sum (λ hm. hm.total_calls) _ (λ hm e h. refl) events start (omega arith)
            ∙ zero_sum _;
        success_calls =
            loop_sum (λ hm. hm.success_calls) succeeded
              (λ hm e h. ground (arith, add64_nothing hm.success_calls)) events start (omega arith)
            ∙ zero_sum _;
        error_calls =
            loop_sum (λ hm. hm.error_calls) failed
              (λ hm e h. ground (arith, add64_nothing hm.error_calls)) events start (omega arith)
            ∙ zero_sum _;
        total_latency =
            loop_sum (λ hm. hm.total_latency_ms) _ (λ hm e h. refl) events start (omega arith)
            ∙ zero_sum _;
        total_input =
            loop_sum (λ hm. hm.total_input_tokens) _ (λ hm e h. refl) events start (omega arith)
            ∙ zero_sum _;
        total_output =
            loop_sum (λ hm. hm.total_output_tokens) _ (λ hm e h. refl) events start (omega arith)
            ∙ zero_sum _;
      }

  pub loop_calls :
      (hour : ℤ) (provider model : Bytes) (events : List (LlmCallEvent F))
      → length events < 2 ^ 63
      → (foldl add_event (empty_rollup hour provider model) events).total_calls
        ≡ pos (length events)
  loop_calls hour provider model events h =
      (loop-HasSums hour provider model events).total_calls
      ∙ exact_count _ _ (count_length events) h

  reset_min-HasSums :
      (events : List (LlmCallEvent F)) (hm : HourlyMetrics F)
      → HasSums events hm
      → HasSums events (reset_min hm)
  unfolding reset_min
  reset_min-HasSums events hm h = elim (Bool-cases (hm.total_calls == pos 0)) [
    | inl empty ↦ rw empty (record {
      total_calls = h.total_calls;
      success_calls = h.success_calls;
      error_calls = h.error_calls;
      total_latency = h.total_latency;
      total_input = h.total_input;
      total_output = h.total_output;
    })
    | inr full ↦ rw full h
  ]

  -- The counts and sums of a rollup are those of its events modulo 2 ^ 64: of all calls, of the
  -- successful and the other ones, of the latencies and of both kinds of tokens.
  pub build_hourly_rollup-HasSums :
      (hour : ℤ) (provider model : Bytes) (events : List (LlmCallEvent F))
      → HasSums events (build_hourly_rollup hour provider model events)
  unfolding build_hourly_rollup
  build_hourly_rollup-HasSums hour provider model events =
      reset_min-HasSums events _ (loop-HasSums hour provider model events)

  -- For fewer than 2 ^ 63 events the number of calls is exact, and every call is counted either as
  -- successful or as an error.
  pub build_hourly_rollup_counts :
      (hour : ℤ) (provider model : Bytes) (events : List (LlmCallEvent F))
      → length events < 2 ^ 63
      → let hm = build_hourly_rollup hour provider model events in
        (hm.total_calls ≡ pos (length events))
        × (hm.success_calls +ℤ hm.error_calls ≡ hm.total_calls)
  build_hourly_rollup_counts hour provider model events h =
      let sums = build_hourly_rollup-HasSums hour provider model events in
      let (n, good, n_le) = nonneg_count succeeded succeeded_small events in
      let (k, bad, k_le) = nonneg_count failed failed_small events in
      let all = sums.total_calls ∙ exact_count _ _ (count_length events) h in
      let successes = sums.success_calls ∙ exact_count _ n good (omega arith) in
      let errors = sums.error_calls ∙ exact_count _ k bad (omega arith) in
      (all, rw (successes, errors, all, ← good, ← bad) (count_split events))
