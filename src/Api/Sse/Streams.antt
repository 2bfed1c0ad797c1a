-- ===== src/Api/Sse/Streams.antt =====
-- A stream of internal/api/handlers.go among the others of the hub.
use llmwatch.Base.{
  ℕ, ◌+◌, ◌≤◌, Bytes, List, [], ◌∷◌, ◌++◌, map, length, ◌==◌, nat_eq, if◌then◌else◌, Option, none,
  some, ◌≡◌, ◌≢◌, refl, arith,
}
use llmwatch.Api.Sse.{
  Client, Hub, Event, opened, closed, published, received, ticked, register, remove, unregister,
  send, broadcast, receive, tick, update, step, run,
}
use llmwatch.Api.Sse.Delivery.{
  react, deliver, given, payloads, Subsequence, deliver_in_order, deliver_all,
}

abbrev pub find : ℕ → List Client → Option Client
find id [] = none
find id (c ∷ cs) = if c.id == id then some c else find id cs

id-send : (p : Bytes) (c : Client) → (send p c).id ≡ c.id
unfolding send
id-send p c = ground arith

id-receive : (c : Client) → (receive c).id ≡ c.id
unfolding receive
id-receive c = ground arith

find-append :
    (id : ℕ) (cs ds : List Client) (c : Client) → find id cs ≡ some c → find id (cs ++ ds) ≡ some c
find-append id [] ds c h = cc
find-append id (d ∷ cs) ds c h = ground (arith, find-append id cs ds c)

find-map-send :
    (p : Bytes) (id : ℕ) (cs : List Client) (c : Client)
    → find id cs ≡ some c
    → find id (map (send p) cs) ≡ some (send p c)
find-map-send p id [] c h = cc
find-map-send p id (d ∷ cs) c h = ground (arith, id-send p d, find-map-send p id cs c)

find-remove :
    (k id : ℕ) (cs : List Client) (c : Client)
    → k ≢ id
    → find id cs ≡ some c
    → find id (remove k cs) ≡ some c
unfolding remove
find-remove k id [] c other h = cc
find-remove k id (d ∷ cs) c other h = ground (arith, find-remove k id cs c other)

find-update :
    (f : Client → Client) (k id : ℕ) (cs : List Client) (c : Client)
    → ((d : Client) → (f d).id ≡ d.id)
    → find id cs ≡ some c
    → find id (update f k cs) ≡ some (if c.id == k then f c else c)
unfolding update
find-update f k id [] c keeps h = cc
find-update f k id (d ∷ cs) c keeps h = ground (arith, keeps d, find-update f k id cs c keeps)

-- The stream is not closed by any of the events.
abbrev pub StaysOpen : ℕ → List Event → Type 0
StaysOpen id [] = Unit
StaysOpen id (closed k ∷ es) = (k ≢ id) × StaysOpen id es
StaysOpen id (_ ∷ es) = StaysOpen id es

run-deliver :
    (id : ℕ) (es : List Event) (h : Hub) (c : Client)
    → StaysOpen id es
    → find id h.clients ≡ some c
    → find id (run h es).clients ≡ some (deliver es c)
unfolding run step register unregister broadcast
run-deliver id [] h c open_ found = found
run-deliver id (opened ∷ es) h c open_ found =
    run-deliver id es _ c open_ (find-append id h.clients _ c found)
run-deliver id (closed k ∷ es) h c (other, open_) found =
    run-deliver id es _ c open_ (find-remove k id h.clients c other found)
run-deliver id (published p ∷ es) h c open_ found =
    run-deliver id es _ (send p c) open_ (find-map-send p id h.clients c found)
run-deliver id (received k ∷ es) h c open_ found =
    run-deliver id es _ (react (received k) c) open_
      (find-update receive k id h.clients c id-receive found)
run-deliver id (ticked k ∷ es) h c open_ found =
    run-deliver id es _ (react (ticked k) c) open_
      (find-update tick k id h.clients c (unfold tick in λ d. refl) found)

-- Whatever else happens at the hub, a registered stream that stays open is given some of the
-- broadcast payloads, in the order in which they are broadcast and each at most once.
pub stream_in_order :
    (id : ℕ) (es : List Event) (h : Hub) (c : Client)
    → StaysOpen id es
    → find id h.clients ≡ some c
    → (c' : Client) × (kept : List Bytes) × (find id (run h es).clients ≡ some c')
      × Subsequence kept (payloads es)
      × (given c' ≡ given c ++ kept)
stream_in_order id es h c open_ found =
    let (kept, some_of, exact) = deliver_in_order es c in
    (deliver es c, kept, run-deliver id es h c open_ found, some_of, exact)

-- A registered stream that stays open is given every broadcast payload, if what waits in its
-- channel and what is broadcast make at most 64 payloads.
pub stream_lossless :
    (id : ℕ) (es : List Event) (h : Hub) (c : Client)
    → StaysOpen id es
    → find id h.clients ≡ some c
    → length c.queue + length (payloads es) ≤ 64
    → (c' : Client) × (find id (run h es).clients ≡ some c') × (given c' ≡ given c ++ payloads es)
stream_lossless id es h c open_ found small =
    (deliver es c, run-deliver id es h c open_ found, deliver_all es c small)
