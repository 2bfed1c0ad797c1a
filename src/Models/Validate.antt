-- ===== src/Models/Validate.antt =====
-- internal/models/event.go: `Validate`, and the condition that it decides.
use llmwatch.Base.{
  Bytes, codes, [], ◌≡◌, ◌≢◌, ◌⊎◌, inl, inr, ◌↔◌, true, ◌||◌, ◌==◌, bytes_eq, bytes_beq_iff,
  if◌then◌else◌, ℤ, pos, ltb_ℤ, ◌≤ℤ◌, Error, Result, ok, err, arith, Bool, Bool-cases,
}
use llmwatch.Base
use llmwatch.Models.Event.{LlmCallEvent, openai, anthropic, gemini, success, error_status}

module _ {F : Type 0} where
  unfoldable pub validate : LlmCallEvent F → Result (Unit {0})
  validate e =
      if e.provider == []
      then err Error.provider_required
      else if not_provider
      then err (Error.invalid_provider e.provider)
      else if e.model == []
      then err Error.model_required
      else if ltb_ℤ e.latency_ms (pos 0)
      then err Error.latency_negative
      else if ltb_ℤ e.input_tokens (pos 0)
      then err Error.input_negative
      else if ltb_ℤ e.output_tokens (pos 0)
      then err Error.output_negative
      else if e.status == success || e.status == error_status
      then ok tt
      else err (Error.invalid_status e.status)
    where
      not_provider : Bool
      not_provider =
          Base.not (e.provider == openai || e.provider == anthropic || e.provider == gemini)

  -- What the API documents of an event.
  pub record IsValid (e : LlmCallEvent F) : Type 0 where
    pub provider_known : (e.provider ≡ openai) ⊎ (e.provider ≡ anthropic) ⊎ (e.provider ≡ gemini)
    pub model_given : e.model ≢ []
    pub latency_nonneg : pos 0 ≤ℤ e.latency_ms
    pub input_nonneg : pos 0 ≤ℤ e.input_tokens
    pub output_nonneg : pos 0 ≤ℤ e.output_tokens
    pub status_known : (e.status ≡ success) ⊎ (e.status ≡ error_status)

  -- Validation succeeds exactly on the events with a known provider, a model, no negative
  -- latency or token count, and a known status.
  pub validate_iff : (e : LlmCallEvent F) → (validate e ≡ ok tt) ↔ IsValid e
  unfolding validate
  validate_iff e = ground (
    arith,
    bytes_beq_iff e.provider [],
    bytes_beq_iff e.provider openai,
    bytes_beq_iff e.provider anthropic,
    bytes_beq_iff e.provider gemini,
    bytes_beq_iff e.model [],
    bytes_beq_iff e.status success,
    bytes_beq_iff e.status error_status,
  )
