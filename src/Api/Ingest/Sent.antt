-- ===== src/Api/Ingest/Sent.antt =====
-- What the ingestion handlers of internal/api/handlers.go publish through any producer.
use llmwatch.Base.{
  ℕ, suc, ◌≤◌, Bytes, List, [], ◌∷◌, length, ℤ, Float64, Error, ok, err, ◌≡◌, refl, ap, ◌∙◌, arith,
  Result-cases, inl, inr,
}
use llmwatch.Models.{LlmCallEvent, normalize, validate}
use llmwatch.Kafka.Message.{Codec}
use llmwatch.Kafka.Producer.{EventProducer}
use llmwatch.Api.Ingest.{ApiState, ingest, handle_ingest_event, handle_ingest_batch}
use llmwatch.Api.Ingest.Batch.{post_all, batch-post_all}

module _ {F : Type 0} ⦃fl : Float64 F⦄ where
  -- The events with their defaults filled in, less those that are invalid then.
  abbrev pub valid_events :
      (ℕ → Bytes) → (ℕ → ℤ) → ℕ → List (LlmCallEvent F) → List (LlmCallEvent F)
  valid_events new_id now i [] = []
  valid_events new_id now i (e ∷ es) = elim (validate (normalize (new_id i) (now i) e)) [
    | ok _ ↦ normalize (new_id i) (now i) e ∷ valid_events new_id now (suc i) es
    | err _ ↦ valid_events new_id now (suc i) es
  ]

module _ {F : Type 0} ⦃fl : Float64 F⦄ (codec : Codec F) (P : EventProducer F) where
  -- Publishing event after event.
  abbrev pub publish_each : List (LlmCallEvent F) → P.State → P.State
  publish_each [] s = s
  publish_each (e ∷ es) s = publish_each es (P.publish e s).0

  post_valid :
      (new_id : Bytes) (now : ℤ) (e : LlmCallEvent F) (s : ApiState P)
      → validate (normalize new_id now e) ≡ ok tt
      → (handle_ingest_event codec P new_id now (ok e) s).0.producer
        ≡ (P.publish (normalize new_id now e) s.producer).0
  unfolding handle_ingest_event ingest
  post_valid new_id now e s valid = ground arith

  post_invalid :
      (new_id : Bytes) (now : ℤ) (e : LlmCallEvent F) (s : ApiState P) {x : Error}
      → validate (normalize new_id now e) ≡ err x
      → (handle_ingest_event codec P new_id now (ok e) s).0.producer ≡ s.producer
  unfolding handle_ingest_event ingest
  post_invalid new_id now e s refused = ground arith

  post_all-publish_each :
      (new_id : ℕ → Bytes) (now : ℕ → ℤ) (i : ℕ) (es : List (LlmCallEvent F)) (s : ApiState P)
      → (post_all codec P new_id now i es s).producer
        ≡ publish_each (valid_events new_id now i es) s.producer
  post_all-publish_each new_id now i [] s = refl
  post_all-publish_each new_id now i (e ∷ es) s =
      let next = (handle_ingest_event codec P (new_id i) (now i) (ok e) s).0 in
      let rest = post_all-publish_each new_id now (suc i) es next in
      elim (Result-cases (validate (normalize (new_id i) (now i) e))) [
        | inl (_, valid) ↦
            rw (valid, valid_events)
              (rest
                ∙ ap (publish_each (valid_events new_id now (suc i) es))
                    (post_valid (new_id i) (now i) e s valid))
        | inr (x, refused) ↦
            rw (refused, valid_events)
              (rest
                ∙ ap (publish_each (valid_events new_id now (suc i) es))
                    (post_invalid (new_id i) (now i) e s refused))
      ]

  -- Whatever the producer does, a batch of at most 1000 events publishes exactly the events
  -- that are valid once their defaults are filled in, each once and in their order.
  pub batch-publish_each :
      (new_id : ℕ → Bytes) (now : ℕ → ℤ) (es : List (LlmCallEvent F)) (s : ApiState P)
      → length es ≤ 1000
      → (handle_ingest_batch codec P new_id now (ok es) s).0.producer
        ≡ publish_each (valid_events new_id now 0 es) s.producer
  batch-publish_each new_id now es s small =
      ap (λ r. r.0.producer) (batch-post_all codec P new_id now es s small)
      ∙ post_all-publish_each new_id now 0 es s
