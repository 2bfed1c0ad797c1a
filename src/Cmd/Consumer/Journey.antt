-- ===== src/Cmd/Consumer/Journey.antt =====
-- The way of a batch: from `HandleIngestBatch` of internal/api/handlers.go through Kafka and the consumer
-- to the table of calls.
use llmwatch.Base.{
  ℕ, ◌≤◌, Bytes, List, [], ◌∷◌, ◌++◌, length, All, Bool, ℤ, pos, Float64, ok, ◌≡◌, ◌≢◌, refl, ap,
  ◌∙◌,
}
use llmwatch.Models.{LlmCallEvent}
use llmwatch.Db.Calls.{Row}
use llmwatch.Db.Calls.Columns.{ColumnTypes}
use llmwatch.Db.Postgres.{Postgres, postgres_store}
use llmwatch.Redis.Cache.{Cache, IsLawful}
use llmwatch.Kafka.Message.{Message, Codec, ReadsBack}
use llmwatch.Kafka.Producer.{Writer, kafka_publish, kafka_producer}
use llmwatch.Kafka.Consumer.{End, Run, consume}
use llmwatch.Kafka.Journey.{
  IsWriter, deliveries, deliveries-All, carried, publish_all, IsDelivered, publish_all-IsDelivered,
}
use llmwatch.Api.Ingest.{ApiState, handle_ingest_batch}
use llmwatch.Api.Ingest.Sent.{valid_events}
use llmwatch.Api.Ingest.Sent.{publish_each, batch-publish_each}
use llmwatch.Cmd.Consumer.{Worker, build_handler}
use llmwatch.Cmd.Consumer.Stored.{IsDatabase, insert_all, first_deliveries, consume_stores}
use llmwatch.Cmd.Consumer.Fresh.{Fresh, AllSent, valid_events-All, first_deliveries-IsDelivered}

module _ {F : Type 0} ⦃fl : Float64 F⦄ (codec : Codec F) (W : Writer) where
  publish_each-publish_all :
      (es : List (LlmCallEvent F)) (s : W.State)
      → publish_each codec (kafka_producer codec W) es s ≡ publish_all codec W es s
  publish_each-publish_all [] s = refl
  publish_each-publish_all (e ∷ es) s = publish_each-publish_all es (kafka_publish codec W e s).0

  module _ (topic : W.State → List Message) (laws : IsWriter W topic) where
    -- A batch on an empty topic.
    batch-IsDelivered :
        (new_id : ℕ → Bytes) (now : ℕ → ℤ) (es : List (LlmCallEvent F))
        (s : ApiState (kafka_producer codec W))
        → length es ≤ 1000
        → topic s.producer ≡ []
        → All (ReadsBack codec) (valid_events new_id now 0 es)
        → let s' = (handle_ingest_batch codec (kafka_producer codec W) new_id now (ok es) s).0 in
          (hs : List (LlmCallEvent F)) × (carried codec (topic s'.producer) ≡ hs)
          × IsDelivered codec W (valid_events new_id now 0 es) s.producer hs
    batch-IsDelivered new_id now es s small empty backs =
        let vs = valid_events new_id now 0 es in
        let (hs, all_carried, delivered) =
          publish_all-IsDelivered codec W topic laws vs s.producer backs in
        (
          hs,
          ap (λ p. carried codec (topic p))
                (batch-publish_each codec (kafka_producer codec W) new_id now es s small
                  ∙ publish_each-publish_all vs s.producer)
              ∙ all_carried
              ∙ ap (λ ms. carried codec ms ++ hs) empty,
          delivered,
        )

    -- From the API to the table: a batch of at most 1000 events is posted on an empty topic of
    -- one partition, and the topic is then consumed with every commit successful. If the
    -- publications of the batch succeed, by a writer that writes at least once and has no write
    -- left open when it returns, the new ids are not empty, the clock is not zero, the codec
    -- reads back the valid events, the cache keeps its promise and always answers, the database
    -- is reached throughout, no statement for a partition changes a row, and the valid events
    -- have ids that differ and are not marked, then what the table gains is what inserting the
    -- valid events, with their defaults filled in, each once and in their order, gives: each in
    -- the form in which its columns store it, less those that a column refuses or whose key is
    -- in the table.
    pub batch_stored :
        (T : ColumnTypes F) (P : Postgres F) (rows : P.State → List (Row F)) (C : Cache F)
        (seen : C.State → Bytes → Bool) (new_id later_id : ℕ → Bytes) (now later : ℕ → ℤ)
        (es : List (LlmCallEvent F)) (s : ApiState (kafka_producer codec W)) (end : End)
        (r : Run F (Worker (postgres_store P) C))
        → IsDatabase T P rows
        → IsLawful C seen
        → ((k : Bytes) (c : C.State) → (b : Bool) × ((C.is_duplicate k c).1 ≡ ok b))
        → ((n : ℕ) → new_id n ≢ [])
        → ((n : ℕ) → now n ≢ pos 0)
        → length es ≤ 1000
        → topic s.producer ≡ []
        → let vs = valid_events new_id now 0 es in
          All (ReadsBack codec) vs
          → AllSent codec W vs s.producer
          → Fresh (seen r.state.world.cache) vs
          → let s' = (handle_ingest_batch codec (kafka_producer codec W) new_id now (ok es) s).0 in
            let r' =
              (consume codec
                (build_handler (postgres_store P) C later_id later)
                (deliveries (topic s'.producer))
                end
                r).0 in
            rows r'.state.world.db.pool ≡ insert_all T (rows r.state.world.db.pool) vs
    batch_stored T P rows C seen new_id later_id now later es s end r database lawful checks named
          timed small empty backs sent fresh =
        let vs = valid_events new_id now 0 es in
        let s' = (handle_ingest_batch codec (kafka_producer codec W) new_id now (ok es) s).0 in
        let known = seen r.state.world.cache in
        let (hs, all_carried, delivered) = batch-IsDelivered new_id now es s small empty backs in
        consume_stores T P rows database C seen lawful checks later_id later codec
          (deliveries (topic s'.producer)) end r (deliveries-All (topic s'.producer))
        ∙ ap
            (λ ds.
              insert_all T (rows r.state.world.db.pool)
                (first_deliveries later_id later r.state.calls known ds))
            all_carried
        ∙ ap (insert_all T (rows r.state.world.db.pool)) (
            first_deliveries-IsDelivered codec W later_id later r.state.calls known vs s.producer hs
              (valid_events-All new_id now 0 es named timed) fresh sent delivered)
