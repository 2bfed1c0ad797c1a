-- ===== src/Models/Event.antt =====
-- internal/models/event.go: the providers, the statuses and the event.
use llmwatch.Base.{Bytes, codes, ℤ}

abbrev pub openai : Bytes
openai = codes "openai"

abbrev pub anthropic : Bytes
anthropic = codes "anthropic"

abbrev pub gemini : Bytes
gemini = codes "gemini"

abbrev pub success : Bytes
success = codes "success"

abbrev pub error_status : Bytes
error_status = codes "error"

-- `LLMCallEvent`, over the type `F` of float64. Provider and Status are strings in the source too.
pub record LlmCallEvent (F : Type 0) : Type 0 where
  pub event_id : Bytes
  pub provider : Bytes
  pub model : Bytes
  pub latency_ms : ℤ
  pub input_tokens : ℤ
  pub output_tokens : ℤ
  pub cost_usd : F
  pub status : Bytes
  pub error_message : Bytes
  pub timestamp : ℤ
