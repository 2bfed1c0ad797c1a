-- ===== src/Tests/Pipeline.antt =====
-- The processor, the consumer and the ingestion of events at concrete data.
use llmwatch.Base.{
  ℤ, ℕ, Bytes, codes, List, [], ◌∷◌, ◌++◌, length, true, false, pos, none, Error, Result, ok, err,
  wrapped, ◌≡◌, ◌⊎◌, ◌↔◌, refl, arith, bytes_beq,
}
use llmwatch.Models.{LlmCallEvent, normalize, validate, IsValid}
use llmwatch.Metrics.Processor.{World, process, store_event}
use llmwatch.Metrics.Processor.Redelivery.{process_each, process_twice}
use llmwatch.Metrics.Processor.Outcomes.{process_best_effort, process_failed}
use llmwatch.Kafka.Consumer.{Round, cancelled, Run, consume}
use llmwatch.Kafka.Consumer.Delivery.{
  consume_to_end, IsServed, consume-IsServed, after, acknowledged,
}
use llmwatch.Cmd.Consumer.{Worker, build_handler}
use llmwatch.Cmd.Consumer.Counts.{IsCounted, consume-IsCounted}
use llmwatch.Kafka.Producer.{mock_producer, mock_publish}
use llmwatch.Api.Response.{Body, respond}
use llmwatch.Api.Ingest.{ApiState, handle_ingest_event, handle_ingest_batch}
use llmwatch.Api.Ingest.Batch.{
  accepted_iff, post_all, batch-post_all, taken, refused, count_posts, post_failures,
}
use llmwatch.Api.Ingest.Sent.{valid_events}
use llmwatch.Api.Ingest.Sent.{publish_each, batch-publish_each}
use llmwatch.Kafka.Message.{Message, ReadsBack}
use llmwatch.Kafka.Producer.{Writer}
use llmwatch.Kafka.Journey.{IsWriter, deliveries, publish_all, IsDelivered, consume-publish_all}
use llmwatch.Base.{◌≢◌, ltb, if◌then◌else◌, bytes_beq_iff, bytes_eq}
use llmwatch.Tests.Fixtures.{
  fixed, table, full, marks, gone, marks-IsLawful, mem, sample, named, ids, message,
}

abbrev start : World full marks
start = record { db = []; cache = [] }

valid_sample : validate sample ≡ ok tt
unfolding validate bytes_beq
valid_sample = refl

abbrev others : List (Bytes × ℤ × LlmCallEvent ℕ)
others = ([], pos 3, named (codes "e2")) ∷ ([], pos 4, sample) ∷ []

-- The insert of the first delivery fails, and the second one is skipped.
process_twice_example :
    let w' = process_each full marks others (process full marks [] (pos 0) sample start).0 in
    let p = process full marks (codes "x") (pos 7) sample w' in
    (p.0.db ≡ w'.db)
    × (p.1 ≡ ok (record { event_id = codes "e1"; duplicate = true; inserted = false }))
process_twice_example =
    process_twice full marks mem marks-IsLawful [] (codes "x") (pos 0) (pos 7) sample others start
      (cc) valid_sample refl refl

-- A cache that marks nothing against one that is gone.
process_best_effort_example :
    let p = process table marks [] (pos 0) sample (record { db = []; cache = [] }) in
    let q = process table gone [] (pos 0) sample (record { db = []; cache = [] }) in
    (p.0.db ≡ q.0.db) × (p.1 ≡ q.1)
process_best_effort_example =
    process_best_effort table marks gone [] (pos 0) sample (record { db = []; cache = [] })
      (record { db = []; cache = [] }) refl refl

insert_fails :
    (process full marks [] (pos 0) sample start).1
    ≡ err (
        wrapped
          (codes "processor: insert event " ++ codes "e1")
          (Error.external (codes "disk full")))
unfolding process store_event normalize validate bytes_beq
insert_fails = refl

process_failed_example :
    let e = normalize [] (pos 0) sample in
    let w' = (process full marks [] (pos 0) sample start).0 in
    ((y : Error) × (validate e ≡ err y) × (w' ≡ start))
    ⊎ ((y : Error) × ((full.insert_event e []).1 ≡ err y)
        × (w'.cache ≡ (marks.is_duplicate e.event_id []).0))
process_failed_example = process_failed full marks [] (pos 0) sample start insert_fails

-- A handler that keeps the ids it is called with, and refuses "bad".
abbrev keep : LlmCallEvent ℕ → List Bytes → List Bytes × Result (Unit {0})
keep e s = (
  s ++ e.event_id ∷ [],
  elim (bytes_beq e.event_id (codes "bad")) [ true ↦ err (Error.external []) | false ↦ ok tt ],
)

abbrev round : ℕ → Bytes → Round
round n v = record { message = message n v; commit = ok tt }

abbrev rounds : List Round
rounds = round 0 (codes "a") ∷ round 1 [] ∷ round 2 (codes "bad") ∷ []

abbrev idle : Run ℕ (List Bytes)
idle = record { state = []; committed = []; handled = [] }

consume_to_end_example :
    (consume ids keep rounds cancelled idle ≡ (after ids keep rounds idle, ok tt))
    × (acknowledged rounds ≡ message 0 (codes "a") ∷ message 1 [] ∷ message 2 (codes "bad") ∷ [])
consume_to_end_example = consume_to_end ids keep rounds cancelled idle (refl, (refl, (refl, tt)))

abbrev stuck : List Round
stuck =
    round 0 (codes "a")
    ∷ record { message = message 1 (codes "b"); commit = err (Error.external []) }
    ∷ round 2 (codes "c")
    ∷ []

consume-IsServed_example :
    IsServed ids keep stuck cancelled idle (consume ids keep stuck cancelled idle)
consume-IsServed_example = consume-IsServed ids keep stuck cancelled idle

abbrev worker : Run ℕ (Worker table marks)
worker = record {
  state = record {
    world = record { db = []; cache = [] };
    counters = record { processed = []; duplicates = 0 };
    calls = 0;
  };
  committed = [];
  handled = [];
}

consume-IsCounted_example :
    IsCounted table marks
      (consume ids
        (build_handler table marks (λ n. codes "x") (λ n. pos 1))
        (rounds ++ rounds)
        cancelled
        worker).0
consume-IsCounted_example =
    consume-IsCounted table marks (λ n. codes "x") (λ n. pos 1) ids (rounds ++ rounds) cancelled
      worker (record { processed = refl; duplicates = refl })

abbrev ApiMock : Type 0
ApiMock = ApiState {F = ℕ} mock_producer

abbrev api : ApiMock
api = record {
  producer = record { published = []; failure = none };
  hub = record { clients = []; next_id = 0 };
}

accepted_iff_example :
    ((handle_ingest_event ids mock_producer [] (pos 0) (ok sample) api).1.status ≡ 202) ↔ (
      (event : LlmCallEvent ℕ) × (ok sample ≡ ok event)
      × IsValid (normalize [] (pos 0) event)
      × ((mock_publish (normalize [] (pos 0) event) api.producer).1 ≡ ok tt))
accepted_iff_example = accepted_iff ids mock_producer [] (pos 0) (ok sample) api

-- One event of the batch has no provider.
abbrev batch : List (LlmCallEvent ℕ)
batch = sample ∷ record sample { provider = [] } ∷ named [] ∷ []

batch-post_all_example :
    handle_ingest_batch ids mock_producer (λ n. codes "x") (λ n. pos 1) (ok batch) api ≡ (
      post_all ids mock_producer (λ n. codes "x") (λ n. pos 1) 0 batch api,
      respond 202 (
          Body.batch
            (count_posts ids mock_producer
              (taken ids mock_producer)
              (λ n. codes "x")
              (λ n. pos 1)
              0
              batch
              api)
            (count_posts ids mock_producer
              (refused ids mock_producer)
              (λ n. codes "x")
              (λ n. pos 1)
              0
              batch
              api)
            (post_failures ids mock_producer (λ n. codes "x") (λ n. pos 1) 0 batch api)),
    )
batch-post_all_example =
    batch-post_all ids mock_producer (λ n. codes "x") (λ n. pos 1) batch api (omega arith)

two_taken :
    count_posts ids mock_producer
      (taken ids mock_producer)
      (λ n. codes "x")
      (λ n. pos 1)
      0
      batch
      api
    ≡ 2
unfolding handle_ingest_event validate bytes_beq mock_publish normalize
two_taken = refl

batch-publish_each_example :
    (handle_ingest_batch ids mock_producer (λ n. codes "x") (λ n. pos 1) (ok batch) api).0.producer
    ≡ publish_each ids mock_producer
        (valid_events (λ n. codes "x") (λ n. pos 1) 0 batch)
        api.producer
batch-publish_each_example =
    batch-publish_each ids mock_producer (λ n. codes "x") (λ n. pos 1) batch api (omega arith)

-- A topic that has each message twice, and fails after four.
abbrev short_topic : Writer
short_topic = record {
  State = List Message;
  write = λ m ms.
      if ltb (length ms) 4
      then (ms ++ m ∷ m ∷ [], ok tt)
      else (ms ++ m ∷ [], err (Error.external []));
}

short_topic-IsWriter : IsWriter short_topic (λ ms. ms)
short_topic-IsWriter = record {
  written = λ m ms h. (m ∷ m ∷ [], ground arith, (refl, (refl, tt)), omega arith);
  unwritten = λ m ms h. (m ∷ [], ground arith, (refl, tt));
}

named-ReadsBack : (id : Bytes) → id ≢ [] → ReadsBack ids (named id)
named-ReadsBack id given v h = ground (arith, bytes_beq_iff v [])

consume-publish_all_example :
    let es = named (codes "a") ∷ named (codes "b") ∷ named (codes "c") ∷ [] in
    IsDelivered ids short_topic es []
      (consume ids keep (deliveries (publish_all ids short_topic es [])) cancelled idle).0.handled
consume-publish_all_example =
    consume-publish_all ids short_topic (λ ms. ms) short_topic-IsWriter keep cancelled []
      (named (codes "a") ∷ named (codes "b") ∷ named (codes "c") ∷ []) [] refl
      (
        named-ReadsBack (codes "a") (cc),
        (named-ReadsBack (codes "b") (cc), (named-ReadsBack (codes "c") (cc), tt)),
      )
