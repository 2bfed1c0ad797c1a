-- ===== src/Api/Sse.antt =====
-- internal/api/handlers.go: the broadcaster of server-sent events and the loop of one stream.
pub mod Delivery
pub mod Streams
use mathlib.Core.List.{foldl}
use llmwatch.Base.{
  ℕ, ◌+◌, Bytes, List, [], ◌∷◌, ◌++◌, map, length, ltb, ◌==◌, nat_eq, if◌then◌else◌, Option, none,
  some,
}
use llmwatch.Models.{LlmCallEvent}
use llmwatch.Kafka.Message.{Codec}

-- What a stream writes: a ping, or an event's JSON.
pub data Frame : Type 0 where
  ping : Frame
  llm_call : Bytes → Frame

-- A registered channel with the stream that reads it. `queue` is the channel's buffer.
pub record Client : Type 0 where
  pub id : ℕ
  pub queue : List Bytes
  pub written : List Frame

-- The buffer of `make(chan []byte, 64)`.
abbrev pub capacity : ℕ
capacity = 64

-- `sseClients`, and the id of the next stream.
pub record Hub : Type 0 where
  pub clients : List Client
  pub next_id : ℕ

-- HandleSSEStream up to its loop: the channel is registered and a first ping is written.
unfoldable pub register : Hub → Hub
register h = record {
  clients = h.clients ++ record { id = h.next_id; queue = []; written = ping ∷ [] } ∷ [];
  next_id = h.next_id + 1;
}

-- delete(h.sseClients, ch): the channel is closed, and no send can reach it any more.
unfoldable pub remove : ℕ → List Client → List Client
remove id [] = []
remove id (c ∷ cs) = let rest = remove id cs in if c.id == id then rest else c ∷ rest

unfoldable pub unregister : ℕ → Hub → Hub
unregister id h = record h { clients = remove id h.clients }

-- `select { case ch <- data: default: }`
unfoldable pub send : Bytes → Client → Client
send payload c =
    if ltb (length c.queue) capacity then record c { queue = c.queue ++ payload ∷ [] } else c

-- The loop of `broadcastSSE` over the clients.
unfoldable pub broadcast : Bytes → Hub → Hub
broadcast payload h = record h { clients = map (send payload) h.clients }

-- `broadcastSSE`: an event that cannot be marshalled is dropped.
unfoldable pub broadcast_event : {F : Type 0} → Codec F → LlmCallEvent F → Hub → Hub
unfolding broadcast send
broadcast_event codec e h = elim (codec.marshal e) [ none ↦ h | some payload ↦ broadcast payload h ]

-- `case data, ok := <-ch`: the oldest payload is written.
unfoldable pub receive : Client → Client
receive c = elim c.queue [
  | [] ↦ c
  | payload ∷ rest ↦ record c { queue = rest; written = c.written ++ llm_call payload ∷ [] }
]

-- `case <-ticker.C`
unfoldable pub tick : Client → Client
tick c = record c { written = c.written ++ ping ∷ [] }

-- A step of one stream on its own client.
unfoldable pub update : (Client → Client) → ℕ → List Client → List Client
update f id [] = []
update f id (c ∷ cs) = (if c.id == id then f c else c) ∷ update f id cs

-- What can happen to the hub, one event at a time: the mutex keeps broadcasts and registrations
-- apart, and a channel's sends and receives are atomic.
pub data Event : Type 0 where
  opened : Event
  closed : ℕ → Event
  published : Bytes → Event
  received : ℕ → Event
  ticked : ℕ → Event

unfoldable pub step : Hub → Event → Hub
step h opened = register h
step h (closed id) = unregister id h
step h (published payload) = broadcast payload h
step h (received id) = record h { clients = update receive id h.clients }
step h (ticked id) = record h { clients = update tick id h.clients }

unfoldable pub run : Hub → List Event → Hub
unfolding step
run = foldl step
