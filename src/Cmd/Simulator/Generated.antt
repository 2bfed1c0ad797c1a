-- ===== src/Cmd/Simulator/Generated.antt =====
-- Every event that cmd/simulator/main.go makes is one that the API accepts.
use llmwatch.Base.{
  ℕ, zero, suc, ◌<◌, Bytes, List, [], ◌∷◌, ℤ, pos, Float64, get_or, All, ◌≡◌, ◌≢◌, ◌↔◌, ◌⊎◌, inl,
  inr, refl, arith, bytes_eq, bytes_beq_iff, int_eq, int_beq_iff, ◌≤ℤ◌, length,
}
use llmwatch.Models.{normalize, IsValid, openai, anthropic, gemini, error_status}
use llmwatch.Cmd.Simulator.{
  ModelDef, Draws, model_pool, model_def, error_messages, event_for, generate_event,
}

abbrev IsOffered : {F : Type 0} → ModelDef F → Type 0
IsOffered m =
    ((m.provider ≡ openai) ⊎ (m.provider ≡ anthropic) ⊎ (m.provider ≡ gemini)) × (m.model ≢ [])

pool-IsOffered : (F : Type 0) ⦃fl : Float64 F⦄ → All (IsOffered {F = F}) model_pool
pool-IsOffered F = (
  (inl refl, cc),
  (
    (inl refl, cc),
    (
      (inl refl, cc),
      (
        (inr (inl refl), cc),
        (
          (inr (inl refl), cc),
          ((inr (inl refl), cc), ((inr (inr refl), cc), ((inr (inr refl), cc), tt))),
        ),
      ),
    ),
  ),
)

get_or-All :
    {A : Type 0} (P : A → Type 0) (xs : List A) (i : ℕ) (d : A) → P d → All P xs → P (get_or xs i d)
get_or-All P [] i d p h = p
get_or-All P (x ∷ xs) zero d p h = h.0
get_or-All P (x ∷ xs) (suc i) d p h = get_or-All P xs i d p h.1

get_or_given :
    (xs : List Bytes) (i : ℕ) → All (λ x. x ≢ []) xs → i < length xs → get_or xs i [] ≢ []
get_or_given [] i h small = absurd (omega arith)
get_or_given (x ∷ xs) zero h small = h.0
get_or_given (x ∷ xs) (suc i) h small = get_or_given xs i h.1 (omega arith)

module _ {F : Type 0} ⦃fl : Float64 F⦄ where
  event_for-IsValid : (m : ModelDef F) (d : Draws F) → IsOffered m → IsValid (event_for m d)
  unfolding event_for
  event_for-IsValid m d (known, named) = record {
    provider_known = known;
    model_given = named;
    latency_nonneg = ground arith;
    input_nonneg = ground arith;
    output_nonneg = ground arith;
    status_known = ground arith;
  }

  normalize-event_for :
      (m : ModelDef F) (d : Draws F) (new_id : Bytes) (now : ℤ)
      → d.new_id ≢ []
      → d.now ≢ pos 0
      → normalize new_id now (event_for m d) ≡ event_for m d
  unfolding normalize event_for
  normalize-event_for m d new_id now named timed =
      ground (arith, bytes_beq_iff d.new_id [], int_beq_iff d.now (pos 0))

  -- Whatever is drawn, the event that the simulator makes is valid, its latency is at least 50
  -- ms and its token counts at least 10 and 5; and with an id and a clock that are not zero the
  -- API's Normalize leaves it as it is.
  pub generate_event-IsValid :
      (d : Draws F) (new_id : Bytes) (now : ℤ)
      → d.new_id ≢ []
      → d.now ≢ pos 0
      → let e = generate_event d in
        IsValid e
        × (pos 50 ≤ℤ e.latency_ms)
        × (pos 10 ≤ℤ e.input_tokens)
        × (pos 5 ≤ℤ e.output_tokens)
        × (normalize new_id now e ≡ e)
  unfolding generate_event
  generate_event-IsValid d new_id now named timed =
      let first = model_def {F = F} openai "gpt-4o" 800 300 1200 800 20 in
      let m = get_or (model_pool {F = F}) d.model_index first in
      let offered =
        get_or-All IsOffered model_pool d.model_index first (inl refl, cc) (pool-IsOffered F) in
      (
        event_for-IsValid m d offered,
        ground arith,
        ground arith,
        ground arith,
        normalize-event_for m d new_id now named timed,
      )

  -- For an index in the range of the error texts, the error text is given exactly on the events
  -- with the status error.
  pub generate_event_message :
      (d : Draws F)
      → d.message_index < length error_messages
      → let e = generate_event d in (e.status ≡ error_status) ↔ (e.error_message ≢ [])
  unfolding generate_event
  generate_event_message d small = ground (
    arith,
    get_or_given error_messages d.message_index (cc, (cc, (cc, (cc, (cc, (cc, (cc, tt))))))) small,
  )
