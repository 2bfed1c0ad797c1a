-- ===== src/Kafka/Producer.antt =====
-- internal/kafka/producer.go: `NewProducer`'s checks, `Publish` and the mock.
use llmwatch.Base.{
  Bytes, codes, List, [], ◌∷◌, ◌++◌, Option, none, some, Error, Result, ok, err, wrapped, ◌==◌,
  bytes_eq, if◌then◌else◌,
}
use llmwatch.Models.{LlmCallEvent}
use llmwatch.Kafka.Message.{Message, Codec}

-- `ProducerConfig` without its logger.
pub record ProducerConfig : Type 0 where
  pub brokers : List Bytes
  pub topic : Bytes

-- The early returns of NewProducer; what it builds then is the library's writer.
unfoldable pub new_producer : ProducerConfig → Result Bytes
new_producer c = elim c.brokers [
  | [] ↦ err (wrapped (codes "kafka") Error.brokers_required)
  | _ ↦ if c.topic == [] then err (wrapped (codes "kafka") Error.topic_required) else ok c.topic
]

-- `EventProducer`, the interface that the API writes to.
pub record EventProducer (F : Type 0) : Type 1 where
  pub State : Type 0
  pub publish : LlmCallEvent F → State → State × Result (Unit {0})

-- The writer of the library: it is handed a message and changes the topic, or fails.
pub record Writer : Type 1 where
  pub State : Type 0
  pub write : Message → State → State × Result (Unit {0})

module _ {F : Type 0} where
  -- The message for an event. Offset and partition are for the broker to fill.
  unfoldable pub event_message : LlmCallEvent F → Bytes → Message
  event_message e payload = record {
    offset = 0;
    partition = 0;
    key = e.provider;
    value = payload;
    headers =
        (codes "event_id", e.event_id) ∷ (codes "content-type", codes "application/json") ∷ [];
    time = e.timestamp;
  }

  -- `KafkaProducer.Publish`.
  unfoldable pub kafka_publish :
      Codec F → (W : Writer) → LlmCallEvent F → W.State → W.State × Result (Unit {0})
  unfolding event_message
  kafka_publish c W e s = elim (c.marshal e) [
    | none ↦ (s, err (wrapped (codes "kafka producer: marshal event") (Error.external [])))
    | some payload ↦
        let (s', written) = W.write (event_message e payload) s in
        elim written [
          | err x ↦ (s', err (wrapped (codes "kafka producer: write message") x))
          | ok _ ↦ (s', ok tt)
        ]
  ]

  abbrev pub kafka_producer : Codec F → Writer → EventProducer F
  kafka_producer c W = record { State = W.State; publish = kafka_publish c W }

-- `MockProducer`.
pub record MockProducer (F : Type 0) : Type 0 where
  pub published : List (LlmCallEvent F)
  pub failure : Option Error

unfoldable pub mock_publish :
    {F : Type 0} → LlmCallEvent F → MockProducer F → MockProducer F × Result (Unit {0})
mock_publish e m = elim m.failure [
  | some x ↦ (m, err x)
  | none ↦ (record m { published = m.published ++ e ∷ [] }, ok tt)
]

abbrev pub mock_producer : {F : Type 0} → EventProducer F
mock_producer {F} = record { State = MockProducer F; publish = mock_publish }
