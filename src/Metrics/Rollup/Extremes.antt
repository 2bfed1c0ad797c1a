-- ===== src/Metrics/Rollup/Extremes.antt =====
-- The least and the greatest latency of two lists of events.
use llmwatch.Base.{
  List, [], ◌∷◌, ◌++◌, ◌≡◌, All, All-append, ℤ, ◌≤ℤ◌, eq_of_parts, arith, inl, inr, ltb_ℤ,
  Bool-cases,
}
use llmwatch.Models.{LlmCallEvent}
use llmwatch.Db.Hourly.{least, greatest}
use llmwatch.Metrics.Rollup.Range.{Attained, IsLeast, IsGreatest}

module _ {F : Type 0} where
  Attained-left : (m : ℤ) (xs ys : List (LlmCallEvent F)) → Attained m xs → Attained m (xs ++ ys)
  Attained-left m [] ys h = absurd h
  Attained-left m (e ∷ xs) ys (inl here) = inl here
  Attained-left m (e ∷ xs) ys (inr later) = inr (Attained-left m xs ys later)

  Attained-right : (m : ℤ) (xs ys : List (LlmCallEvent F)) → Attained m ys → Attained m (xs ++ ys)
  Attained-right m [] ys h = h
  Attained-right m (e ∷ xs) ys h = inr (Attained-right m xs ys h)

  below-least :
      (a b : ℤ) (xs : List (LlmCallEvent F))
      → (b ≤ℤ a)
      → All (λ e. a ≤ℤ e.latency_ms) xs
      → All (λ e. b ≤ℤ e.latency_ms) xs
  below-least a b [] h k = tt
  below-least a b (e ∷ xs) h (k, ks) = (omega arith, below-least a b xs h ks)

  above-greatest :
      (a b : ℤ) (xs : List (LlmCallEvent F))
      → (a ≤ℤ b)
      → All (λ e. e.latency_ms ≤ℤ a) xs
      → All (λ e. e.latency_ms ≤ℤ b) xs
  above-greatest a b [] h k = tt
  above-greatest a b (e ∷ xs) h (k, ks) = (omega arith, above-greatest a b xs h ks)

  pub least-IsLeast :
      (a b : ℤ) (xs ys : List (LlmCallEvent F))
      → IsLeast a xs
      → IsLeast b ys
      → IsLeast (least a b) (xs ++ ys)
  least-IsLeast a b xs ys (la, aa) (lb, ab) = elim (Bool-cases (ltb_ℤ b a)) [
    | inl lt ↦
        rw lt
          (All-append _ xs ys (below-least a b xs (ground arith) la) lb, Attained-right b xs ys ab)
    | inr ge ↦
        rw ge
          (All-append _ xs ys la (below-least b a ys (ground arith) lb), Attained-left a xs ys aa)
  ]

  pub greatest-IsGreatest :
      (a b : ℤ) (xs ys : List (LlmCallEvent F))
      → IsGreatest a xs
      → IsGreatest b ys
      → IsGreatest (greatest a b) (xs ++ ys)
  greatest-IsGreatest a b xs ys (la, aa) (lb, ab) = elim (Bool-cases (ltb_ℤ a b)) [
    | inl lt ↦
        rw lt (
          All-append _ xs ys (above-greatest a b xs (ground arith) la) lb,
          Attained-right b xs ys ab,
        )
    | inr ge ↦
        rw ge (
          All-append _ xs ys la (above-greatest b a ys (ground arith) lb),
          Attained-left a xs ys aa,
        )
  ]

  le-Attained :
      (a b : ℤ) (xs : List (LlmCallEvent F))
      → All (λ e. a ≤ℤ e.latency_ms) xs
      → Attained b xs
      → a ≤ℤ b
  le-Attained a b [] h k = absurd k
  le-Attained a b (e ∷ xs) (h, hs) (inl here) = rw (← here) h
  le-Attained a b (e ∷ xs) (h, hs) (inr later) = le-Attained a b xs hs later

  ge-Attained :
      (a b : ℤ) (xs : List (LlmCallEvent F))
      → All (λ e. e.latency_ms ≤ℤ a) xs
      → Attained b xs
      → b ≤ℤ a
  ge-Attained a b [] h k = absurd k
  ge-Attained a b (e ∷ xs) (h, hs) (inl here) = rw (← here) h
  ge-Attained a b (e ∷ xs) (h, hs) (inr later) = ge-Attained a b xs hs later

  pub IsLeast-unique : (a b : ℤ) (xs : List (LlmCallEvent F)) → IsLeast a xs → IsLeast b xs → a ≡ b
  IsLeast-unique a b xs h k =
      eq_of_parts a b (omega (arith, le-Attained a b xs h.0 k.1, le-Attained b a xs k.0 h.1))

  pub IsGreatest-unique :
      (a b : ℤ) (xs : List (LlmCallEvent F)) → IsGreatest a xs → IsGreatest b xs → a ≡ b
  IsGreatest-unique a b xs h k =
      eq_of_parts a b (omega (arith, ge-Attained a b xs h.0 k.1, ge-Attained b a xs k.0 h.1))
