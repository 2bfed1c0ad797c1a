-- ===== src/Api/Response.antt =====
-- internal/api/handlers.go: what `writeJSON` and `writeError` send.
use llmwatch.Base.{ℕ, Bytes, List, ℤ, Error, Result}
use llmwatch.Models.Views.{
  SummaryMetrics, CallsPerMinutePoint, LatencyPercentiles, CostByProvider, ErrorRateByModel,
  ProviderComparison,
}
use llmwatch.Models.{LlmCallEvent}
use llmwatch.Api.Sse.{Frame}

-- An entry of the details of a batch: an id, with the reason if the event is invalid.
pub data Failure : Type 0 where
  invalid : Bytes → Error → Failure
  unpublished : Bytes → Failure

-- The values that the handlers hand to the JSON encoder, and the frames of a stream. Of the health checks it is the verdict, the
-- answers of the database and the cache, and the time.
pub data Body (F : Type 0) : Type 0 where
  error_message : Bytes → Body F
  error_detail : Error → Body F
  event_accepted : Bytes → Body F
  batch : ℕ → ℕ → List Failure → Body F
  summary : SummaryMetrics F → Body F
  points : List CallsPerMinutePoint → Body F
  percentiles : List (LatencyPercentiles F) → Body F
  costs : List (CostByProvider F) → Body F
  rates : List (ErrorRateByModel F) → Body F
  calls : List (LlmCallEvent F) → Body F
  comparisons : List (ProviderComparison F) → Body F
  stream : List Frame → Body F
  health : Bytes → Result (Unit {0}) → Result (Unit {0}) → ℤ → Body F

pub record Response (F : Type 0) : Type 0 where
  pub status : ℕ
  pub body : Body F

abbrev pub respond : {F : Type 0} → ℕ → Body F → Response F
respond status body = record { status = status; body = body }
