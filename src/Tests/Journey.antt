-- ===== src/Tests/Journey.antt =====
-- A batch from the API to the table.
use llmwatch.Base.{
  ℕ, Bytes, codes, List, [], ◌∷◌, ◌++◌, All, bytes_beq, ℤ, pos, some, ok, ◌≡◌, refl, arith,
}
use llmwatch.Models.{LlmCallEvent, normalize, validate}
use llmwatch.Db.Postgres.{postgres_store}
use llmwatch.Kafka.Message.{Message, Codec, ReadsBack}
use llmwatch.Kafka.Producer.{Writer, kafka_publish, kafka_producer}
use llmwatch.Kafka.Consumer.{cancelled, consume}
use llmwatch.Kafka.Journey.{IsWriter, deliveries}
use llmwatch.Api.Ingest.{ApiState, handle_ingest_batch}
use llmwatch.Api.Ingest.Sent.{valid_events}
use llmwatch.Cmd.Consumer.{build_handler}
use llmwatch.Cmd.Consumer.Fresh.{Fresh, AllSent}
use llmwatch.Cmd.Consumer.Stored.{insert_all}
use llmwatch.Cmd.Consumer.Journey.{batch_stored}
use llmwatch.Tests.Fixtures.{fixed, marks, marks-IsLawful, mem, sample}
use llmwatch.Tests.Database.{types, postgres, postgres-IsDatabase, worker, first_id, second_id}

abbrev priced : Bytes → LlmCallEvent ℕ
priced id = record sample { event_id = id; cost_usd = 5 }

-- An event's text is its id.
abbrev plain : Codec ℕ
plain = record { marshal = λ e. some e.event_id; unmarshal = λ v. some (priced v) }

-- Every message is there twice.
abbrev topic : Writer
topic = record { State = List Message; write = λ m ms. (ms ++ m ∷ m ∷ [], ok tt) }

topic-IsWriter : IsWriter topic (λ ms. ms)
topic-IsWriter = record {
  written = λ m ms h. (m ∷ m ∷ [], refl, (refl, (refl, tt)), omega arith);
  unwritten = λ m ms h. absurd (ground (arith, h));
}

abbrev new_id : ℕ → Bytes
new_id n = second_id

abbrev now : ℕ → ℤ
now n = pos 5

-- The second event has no model.
abbrev batch : List (LlmCallEvent ℕ)
batch = priced first_id ∷ record (priced (codes "c")) { model = [] } ∷ priced [] ∷ []

valid_batch : valid_events new_id now 0 batch ≡ priced first_id ∷ priced second_id ∷ []
unfolding validate normalize bytes_beq
valid_batch = refl

priced-ReadsBack : (id : Bytes) → ReadsBack plain (priced id)
priced-ReadsBack id v h = ground (arith, h)

backs : All (ReadsBack plain) (valid_events new_id now 0 batch)
unfolding validate normalize bytes_beq
backs = (priced-ReadsBack first_id, (priced-ReadsBack second_id, tt))

fresh : Fresh (mem worker.state.world.cache) (valid_events new_id now 0 batch)
unfolding validate normalize bytes_beq
fresh = (refl, (refl, tt))

all_sent : AllSent plain topic (valid_events new_id now 0 batch) []
unfolding kafka_publish validate normalize bytes_beq
all_sent = (refl, (refl, tt))

abbrev api : ApiState (kafka_producer plain topic)
api = record { producer = []; hub = record { clients = []; next_id = 0 } }

batch_stored_example :
    let s' = (handle_ingest_batch plain (kafka_producer plain topic) new_id now (ok batch) api).0 in
    let r' =
      (consume plain
        (build_handler (postgres_store postgres) marks (λ n. codes "y") (λ n. pos 9))
        (deliveries s'.producer)
        cancelled
        worker).0 in
    r'.state.world.db.pool
    ≡ insert_all types worker.state.world.db.pool (valid_events new_id now 0 batch)
batch_stored_example =
    batch_stored plain topic (λ ms. ms) topic-IsWriter types postgres (λ rows. rows) marks mem
      new_id (λ n. codes "y") now (λ n. pos 9) batch api cancelled worker postgres-IsDatabase
      marks-IsLawful (λ k c. (mem c k, refl)) (λ n. cc) (λ n. cc) (omega arith) refl backs all_sent
      fresh
