-- ===== src/Api/Ingest.antt =====
-- internal/api/handlers.go: `HandleIngestEvent` and `HandleIngestBatch`.
pub mod Batch
pub mod Sent
use llmwatch.Base.{
  ℕ, suc, ◌+◌, Bytes, codes, List, [], ◌∷◌, ◌++◌, length, ltb, if◌then◌else◌, ℤ, Float64, Option,
  none, some, Error, Result, ok, err, wrapped,
}
use llmwatch.Models.{LlmCallEvent, normalize, validate}
use llmwatch.Kafka.Message.{Codec}
use llmwatch.Kafka.Producer.{EventProducer}
use llmwatch.Api.Response.{Failure, invalid, unpublished, Response, Body, respond}
use llmwatch.Api.Sse.{Hub, broadcast_event}

-- The state that the two handlers change.
pub record ApiState {F : Type 0} (P : EventProducer F) : Type 0 where
  pub producer : P.State
  pub hub : Hub

module _ {F : Type 0} ⦃fl : Float64 F⦄ (codec : Codec F) (P : EventProducer F) where
  -- The handler behind Normalize.
  unfoldable pub ingest : LlmCallEvent F → ApiState P → ApiState P × Response F
  ingest e s = elim (validate e) [
    | err x ↦ (s, respond 422 (Body.error_detail x))
    | ok _ ↦
        let (p, sent) = P.publish e s.producer in
        elim sent [
          | err _ ↦ (
            record s { producer = p },
            respond 500 (Body.error_message (codes "failed to queue event")),
          )
          | ok _ ↦ (
            record { producer = p; hub = broadcast_event codec e s.hub },
            respond 202 (Body.event_accepted e.event_id),
          )
        ]
  ]

  -- The request is what the JSON decoder makes of the body, or its error; `new_id` and `now` are what
  -- Normalize would fill in.
  unfoldable pub handle_ingest_event :
      Bytes → ℤ → Result (LlmCallEvent F) → ApiState P → ApiState P × Response F
  unfolding ingest
  handle_ingest_event new_id now (err x) s =
      (s, respond 400 (Body.error_detail (wrapped (codes "invalid JSON") x)))
  handle_ingest_event new_id now (ok event) s = ingest (normalize new_id now event) s

  -- The loop's variables.
  pub record Progress : Type 0 where
    pub state : ApiState P
    pub accepted : List Bytes
    pub failed : List Failure

  -- The body of the loop behind Normalize.
  unfoldable pub ingest_one : LlmCallEvent F → Progress → Progress
  ingest_one e b = elim (validate e) [
    | err x ↦ record b { failed = b.failed ++ invalid e.event_id x ∷ [] }
    | ok _ ↦
        let (p, sent) = P.publish e b.state.producer in
        elim sent [
          | err _ ↦ record b {
            state = record (b.state) { producer = p };
            failed = b.failed ++ unpublished e.event_id ∷ [];
          }
          | ok _ ↦ record b {
            state = record { producer = p; hub = broadcast_event codec e b.state.hub };
            accepted = b.accepted ++ e.event_id ∷ [];
          }
        ]
  ]

  -- The loop from the index `i`; `new_id i` and `now i` are what Normalize would fill in there.
  unfoldable pub ingest_all :
      (ℕ → Bytes) → (ℕ → ℤ) → ℕ → List (LlmCallEvent F) → Progress → Progress
  unfolding ingest_one
  ingest_all new_id now i [] b = b
  ingest_all new_id now i (e ∷ es) b =
      ingest_all new_id now (suc i) es (ingest_one (normalize (new_id i) (now i) e) b)

  unfoldable pub handle_ingest_batch :
      (ℕ → Bytes) → (ℕ → ℤ) → Result (List (LlmCallEvent F)) → ApiState P → ApiState P × Response F
  unfolding ingest_all
  handle_ingest_batch new_id now (err x) s =
      (s, respond 400 (Body.error_detail (wrapped (codes "invalid JSON") x)))
  handle_ingest_batch new_id now (ok events) s =
      if ltb 1000 (length events)
      then (s, respond 413 (Body.error_message (codes "batch size exceeds 1000")))
      else let b =
          ingest_all new_id now 0 events (record { state = s; accepted = []; failed = [] }) in
        (b.state, respond 202 (Body.batch (length b.accepted) (length b.failed) b.failed))
