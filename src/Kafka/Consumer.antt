-- ===== src/Kafka/Consumer.antt =====
-- internal/kafka/consumer.go: `NewConsumer`'s checks and the loop of `Consume`.
pub mod Delivery
use llmwatch.Base.{
  ℕ, Bytes, codes, List, [], ◌∷◌, ◌++◌, ℤ, pos, Option, none, some, Error, Result, ok, err, wrapped,
  ◌==◌, bytes_eq, int_eq, if◌then◌else◌, negsuc,
}
use llmwatch.Models.{LlmCallEvent}
use llmwatch.Kafka.Message.{Message, Codec}

-- `ConsumerConfig` without its logger.
pub record ConsumerConfig : Type 0 where
  pub brokers : List Bytes
  pub topic : Bytes
  pub group_id : Bytes
  pub start_offset : ℤ

-- kafkago.FirstOffset
abbrev pub first_offset : ℤ
first_offset = negsuc 1

-- The early returns of NewConsumer, and the offset that it starts from.
unfoldable pub new_consumer : ConsumerConfig → Result ℤ
new_consumer c = elim c.brokers [
  | [] ↦ err (wrapped (codes "kafka consumer") Error.brokers_required)
  | _ ↦
      if c.topic == []
      then err (wrapped (codes "kafka consumer") Error.topic_required)
      else if c.group_id == []
      then err (wrapped (codes "kafka consumer") Error.group_required)
      else ok (if c.start_offset == pos 0 then first_offset else c.start_offset)
]

-- What the broker does in one round: the message that it delivers, and its answer if the round
-- commits.
pub record Round : Type 0 where
  pub message : Message
  pub commit : Result (Unit {0})

-- Why no further message comes: the context is cancelled, or a fetch fails while it is not.
pub data End : Type 0 where
  cancelled : End
  fetch_failed : Error → End

-- The handler's state, the messages whose commit has succeeded and the events that the handler was
-- called with, in order.
pub record Run (F : Type 0) (H : Type 0) : Type 0 where
  pub state : H
  pub committed : List Message
  pub handled : List (LlmCallEvent F)

-- CommitMessages, its failure left to the caller.
unfoldable pub commit : {F H : Type 0} → Round → Run F H → Run F H
commit d r = elim d.commit [
  | ok _ ↦ record r { committed = r.committed ++ d.message ∷ [] }
  | err _ ↦ r
]

unfoldable pub call :
    {F H : Type 0}
    → (LlmCallEvent F → H → H × Result (Unit {0}))
    → LlmCallEvent F
    → Run F H
    → Run F H × Result (Unit {0})
call handler e r =
    let (s, result) = handler e r.state in
    (record r { state = s; handled = r.handled ++ e ∷ [] }, result)

-- What follows the handler's answer: after an error the loop goes on whether or not the commit
-- succeeds, after a success it returns if the commit fails. `rest` is the run from the next round.
unfoldable pub go_on :
    {F H : Type 0}
    → Result (Unit {0})
    → Result (Unit {0})
    → Run F H
    → Run F H × Result (Unit {0})
    → Run F H × Result (Unit {0})
go_on (err _) committed r rest = rest
go_on (ok _) (ok _) r rest = rest
go_on (ok _) (err x) r rest = (r, err (wrapped (codes "kafka consumer: commit messages") x))

module _ {F H : Type 0} (c : Codec F) (handler : LlmCallEvent F → H → H × Result (Unit {0})) where
  -- The loop, on the rounds that the broker plays and the way it ends.
  unfoldable pub consume : List Round → End → Run F H → Run F H × Result (Unit {0})
  consume [] cancelled r = (r, ok tt)
  consume [] (fetch_failed x) r = (r, err (wrapped (codes "kafka consumer: fetch message") x))
  consume (d ∷ ds) end r = elim (c.unmarshal d.message.value) [
    | none ↦ consume ds end (commit d r)
    | some e ↦
        let (r', result) = call handler e r in
        let rest = consume ds end (commit d r') in go_on result d.commit r' rest
  ]
