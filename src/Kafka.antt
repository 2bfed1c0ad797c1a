-- ===== src/Kafka.antt =====
-- internal/kafka: the producer that the API writes to and the loop that the consumer runs.
pub mod Message
pub mod Producer
pub mod Consumer
pub mod Journey
