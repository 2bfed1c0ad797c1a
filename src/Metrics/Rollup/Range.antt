-- ===== src/Metrics/Rollup/Range.antt =====
-- The least and the greatest latency of a rollup.
use mathlib.Core.List.{foldl}
use llmwatch.Base.{
  ◌^◌, ◌<◌, Bytes, List, [], ◌∷◌, ◌≡◌, ◌≢◌, refl, sym, subst, ◌∙◌, length, All, int_eq, ℤ, pos,
  ◌≤ℤ◌, IsInt64, arith, Float64, inl, inr, ◌⊎◌, int_beq_iff,
}
use llmwatch.Models.{LlmCallEvent}
use llmwatch.Db.Hourly.{HourlyMetrics}
use llmwatch.Metrics.Rollup.{empty_rollup, add_event, reset_min, build_hourly_rollup, max_int64}
use llmwatch.Metrics.Rollup.Sums.{loop_calls}

module _ {F : Type 0} where
  -- Some event has the latency.
  abbrev pub Attained : ℤ → List (LlmCallEvent F) → Type 0
  Attained m [] = ⊥
  Attained m (e ∷ events) = (e.latency_ms ≡ m) ⊎ Attained m events

  abbrev pub IsLeast : ℤ → List (LlmCallEvent F) → Type 0
  IsLeast m events = All (λ e. m ≤ℤ e.latency_ms) events × Attained m events

  abbrev pub IsGreatest : ℤ → List (LlmCallEvent F) → Type 0
  IsGreatest m events = All (λ e. e.latency_ms ≤ℤ m) events × Attained m events

-- The extremes of a rollup are the least and the greatest latency of the events.
abbrev pub HasRange : {F : Type 0} → List (LlmCallEvent F) → HourlyMetrics F → Type 0
HasRange events hm = IsLeast hm.min_latency_ms events × IsGreatest hm.max_latency_ms events

-- The running value `m` is the one behind the first event, `k`, or that of a later event; and `k` is
-- the first event's or the value before, `h`.
which : {A : Type 0} (m k h l : ℤ) → (m ≡ k) ⊎ A → (k ≡ h) ⊎ (l ≡ k) → (m ≡ h) ⊎ (l ≡ m) ⊎ A
which m k h l (inr later) _ = inr (inr later)
which m k h l (inl same) (inl old) = inl (same ∙ old)
which m k h l (inl same) (inr new) = inr (inl (new ∙ sym same))

at_top : (m l : ℤ) → m ≤ℤ l → IsInt64 l → m ≡ max_int64 → l ≡ m
at_top m l low fits start = ground arith

at_bottom : (m l : ℤ) → l ≤ℤ m → pos 0 ≤ℤ l → m ≡ pos 0 → l ≡ m
at_bottom m l high fits start = ground arith

-- What validation and the type int64 give for a latency.
abbrev pub IsLatency : ℤ → Type 0
IsLatency l = (pos 0 ≤ℤ l) × IsInt64 l

module _ {F : Type 0} ⦃fl : Float64 F⦄ where
  round_min :
      (hm : HourlyMetrics F) (e : LlmCallEvent F)
      → let m = (add_event hm e).min_latency_ms in
        (m ≤ℤ hm.min_latency_ms)
        × (m ≤ℤ e.latency_ms)
        × ((m ≡ hm.min_latency_ms) ⊎ (e.latency_ms ≡ m))
  unfolding add_event
  round_min hm e = ground arith

  round_max :
      (hm : HourlyMetrics F) (e : LlmCallEvent F)
      → let m = (add_event hm e).max_latency_ms in
        (hm.max_latency_ms ≤ℤ m)
        × (e.latency_ms ≤ℤ m)
        × ((m ≡ hm.max_latency_ms) ⊎ (e.latency_ms ≡ m))
  unfolding add_event
  round_max hm e = ground arith

  loop_min :
      (events : List (LlmCallEvent F)) (hm : HourlyMetrics F)
      → let m = (foldl add_event hm events).min_latency_ms in
        (m ≤ℤ hm.min_latency_ms)
        × All (λ e. m ≤ℤ e.latency_ms) events
        × ((m ≡ hm.min_latency_ms) ⊎ Attained m events)
  loop_min [] hm = (omega arith, tt, inl refl)
  loop_min (e ∷ events) hm =
      let (low, below, chosen) = loop_min events (add_event hm e) in
      let (round_low, round_below, round_chosen) = round_min hm e in
      (omega arith, (omega arith, below), which _ _ _ _ chosen round_chosen)

  loop_max :
      (events : List (LlmCallEvent F)) (hm : HourlyMetrics F)
      → let m = (foldl add_event hm events).max_latency_ms in
        (hm.max_latency_ms ≤ℤ m)
        × All (λ e. e.latency_ms ≤ℤ m) events
        × ((m ≡ hm.max_latency_ms) ⊎ Attained m events)
  loop_max [] hm = (omega arith, tt, inl refl)
  loop_max (e ∷ events) hm =
      let (high, above, chosen) = loop_max events (add_event hm e) in
      let (round_high, round_above, round_chosen) = round_max hm e in
      (omega arith, (omega arith, above), which _ _ _ _ chosen round_chosen)

  -- The initial values are overtaken: no latency is above the largest int64, or negative.
  first_least :
      (m : ℤ) (e : LlmCallEvent F) (events : List (LlmCallEvent F))
      → m ≤ℤ e.latency_ms
      → IsInt64 e.latency_ms
      → (m ≡ max_int64) ⊎ Attained m (e ∷ events)
      → Attained m (e ∷ events)
  first_least m e events low fits (inr found) = found
  first_least m e events low fits (inl start) = inl (at_top m e.latency_ms low fits start)

  first_greatest :
      (m : ℤ) (e : LlmCallEvent F) (events : List (LlmCallEvent F))
      → e.latency_ms ≤ℤ m
      → pos 0 ≤ℤ e.latency_ms
      → (m ≡ pos 0) ⊎ Attained m (e ∷ events)
      → Attained m (e ∷ events)
  first_greatest m e events high fits (inr found) = found
  first_greatest m e events high fits (inl start) = inl (at_bottom m e.latency_ms high fits start)

  reset_min_full : (hm : HourlyMetrics F) → hm.total_calls ≢ pos 0 → reset_min hm ≡ hm
  unfolding reset_min
  reset_min_full hm h = ground (arith, int_beq_iff hm.total_calls (pos 0))

  calls_ne_zero :
      (hour : ℤ) (provider model : Bytes) (e : LlmCallEvent F) (events : List (LlmCallEvent F))
      → length (e ∷ events) < 2 ^ 63
      → (foldl add_event (empty_rollup hour provider model) (e ∷ events)).total_calls ≢ pos 0
  calls_ne_zero hour provider model e events short zero =
      cc (sym (loop_calls hour provider model (e ∷ events) short) ∙ zero)

  -- For one event or more, and fewer than 2 ^ 63, with latencies that are not negative, the
  -- rollup's extremes are the least and the greatest latency, each the latency of some event.
  pub build_hourly_rollup_range :
      (hour : ℤ) (provider model : Bytes) (e : LlmCallEvent F) (events : List (LlmCallEvent F))
      → length (e ∷ events) < 2 ^ 63
      → All (λ x. IsLatency x.latency_ms) (e ∷ events)
      → HasRange (e ∷ events) (build_hourly_rollup hour provider model (e ∷ events))
  unfolding build_hourly_rollup
  build_hourly_rollup_range hour provider model e events short fits =
      let start = empty_rollup {F = F} hour provider model in
      let (low, below, least) = loop_min (e ∷ events) start in
      let (high, above, greatest) = loop_max (e ∷ events) start in
      subst (HasRange (e ∷ events))
        (sym (reset_min_full _ (calls_ne_zero hour provider model e events short)))
        (
          (below, first_least _ e events below.0 fits.0.1 least),
          (above, first_greatest _ e events above.0 fits.0.0 greatest),
        )
