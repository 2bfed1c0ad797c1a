-- ===== src/Kafka/Message.antt =====
-- Messages of segmentio/kafka-go as the repository fills them, and encoding/json on events.
use llmwatch.Base.{ℕ, Bytes, List, ℤ, Option, some, ◌≡◌}
use llmwatch.Models.{LlmCallEvent}

-- The offset and the partition are the broker's; the time is in milliseconds.
pub record Message : Type 0 where
  pub offset : ℕ
  pub partition : ℕ
  pub key : Bytes
  pub value : Bytes
  pub headers : List (Bytes × Bytes)
  pub time : ℤ

-- json.Marshal and json.Unmarshal on events; `none` is an error. Marshalling fails on a cost that is
-- no finite number.
pub record Codec (F : Type 0) : Type 0 where
  pub marshal : LlmCallEvent F → Option Bytes
  pub unmarshal : Bytes → Option (LlmCallEvent F)

-- What is written is read back. encoding/json has this for events whose texts are valid UTF-8.
abbrev pub ReadsBack : {F : Type 0} → Codec F → LlmCallEvent F → Type 0
ReadsBack c e = (v : Bytes) → c.marshal e ≡ some v → c.unmarshal v ≡ some e
