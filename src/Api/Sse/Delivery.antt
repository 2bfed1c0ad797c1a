-- ===== src/Api/Sse/Delivery.antt =====
-- What a subscriber of the event stream in internal/api/handlers.go receives.
use native.Mathlib.Decide.{dec_lt}
use llmwatch.Base.{
  ℕ, suc, ◌+◌, ◌≤◌, ◌<◌, Bytes, List, [], ◌∷◌, ◌++◌, append_assoc, append-nil, map, length,
  length-append, All, All-append, ◌==◌, nat_eq, if◌then◌else◌, ◌≡◌, refl, ap, ◌∙◌, arith,
  Bool-cases, inl, inr,
}
use llmwatch.Api.Sse.{
  Client, Frame, ping, llm_call, Hub, capacity, Event, opened, closed, published, received, ticked,
  register, remove, unregister, send, broadcast, receive, tick, update, step, run,
}

-- The channel's buffer is within its capacity.
abbrev pub IsBounded : Client → Type 0
IsBounded c = length c.queue ≤ capacity

send-IsBounded : (p : Bytes) (c : Client) → IsBounded c → IsBounded (send p c)
unfolding send
send-IsBounded p c h = ground (arith, length-append c.queue (p ∷ []))

receive-IsBounded : (c : Client) → IsBounded c → IsBounded (receive c)
unfolding receive
receive-IsBounded c h = ground arith

map-All :
    (P : Client → Type 0) (f : Client → Client)
    → ((c : Client) → P c → P (f c))
    → (cs : List Client) → All P cs
    → All P (map f cs)
map-All P f keep [] h = tt
map-All P f keep (c ∷ cs) (h, hs) = (keep c h, map-All P f keep cs hs)

update-All :
    (P : Client → Type 0) (f : Client → Client) (id : ℕ)
    → ((c : Client) → P c → P (f c))
    → (cs : List Client) → All P cs
    → All P (update f id cs)
unfolding update
update-All P f id keep [] h = tt
update-All P f id keep (c ∷ cs) (h, hs) = elim (Bool-cases (c.id == id)) [
  | inl mine ↦ rw mine (keep c h, update-All P f id keep cs hs)
  | inr other ↦ rw other (h, update-All P f id keep cs hs)
]

remove-All : (P : Client → Type 0) (id : ℕ) (cs : List Client) → All P cs → All P (remove id cs)
unfolding remove
remove-All P id [] h = tt
remove-All P id (c ∷ cs) (h, hs) = elim (Bool-cases (c.id == id)) [
  | inl mine ↦ rw mine (remove-All P id cs hs)
  | inr other ↦ rw other (h, remove-All P id cs hs)
]

step-IsBounded : (h : Hub) (e : Event) → All IsBounded h.clients → All IsBounded (step h e).clients
unfolding step register unregister broadcast
step-IsBounded h opened b = All-append IsBounded h.clients _ b (omega arith)
step-IsBounded h (closed id) b = remove-All IsBounded id h.clients b
step-IsBounded h (published p) b = map-All IsBounded (send p) (send-IsBounded p) h.clients b
step-IsBounded h (received id) b = update-All IsBounded receive id receive-IsBounded h.clients b
step-IsBounded h (ticked id) b = update-All IsBounded tick id (unfold tick in λ c q. q) h.clients b

-- If no stream's buffer is above its capacity, none ever outgrows it, whatever happens at the hub.
pub run-IsBounded :
    (h : Hub) (es : List Event) → All IsBounded h.clients → All IsBounded (run h es).clients
unfolding run
run-IsBounded h [] b = b
run-IsBounded h (e ∷ es) b = run-IsBounded (step h e) es (step-IsBounded h e b)

-- The calls among what a stream has written.
abbrev pub calls : List Frame → List Bytes
calls [] = []
calls (ping ∷ fs) = calls fs
calls (llm_call p ∷ fs) = p ∷ calls fs

-- What is broadcast in a sequence of events.
abbrev pub payloads : List Event → List Bytes
payloads [] = []
payloads (published p ∷ es) = p ∷ payloads es
payloads (_ ∷ es) = payloads es

-- What an event does to a registered client, its removal left out.
abbrev pub react : Event → Client → Client
react (published p) c = send p c
react (received id) c = if c.id == id then receive c else c
react (ticked id) c = if c.id == id then tick c else c
react _ c = c

abbrev pub deliver : List Event → Client → Client
deliver [] c = c
deliver (e ∷ es) c = deliver es (react e c)

-- The calls that a client has been given: written, or waiting in its channel.
abbrev pub given : Client → List Bytes
given c = calls c.written ++ c.queue

calls-append : (xs ys : List Frame) → calls (xs ++ ys) ≡ calls xs ++ calls ys
calls-append [] ys = refl
calls-append (ping ∷ xs) ys = calls-append xs ys
calls-append (llm_call p ∷ xs) ys = ap (λ s. p ∷ s) (calls-append xs ys)

given-receive_from :
    (id : ℕ) (q : List Bytes) (w : List Frame)
    → let c : Client = record { id = id; queue = q; written = w } in given (receive c) ≡ given c
unfolding receive
given-receive_from id [] w = refl
given-receive_from id (p ∷ rest) w =
    ap (λ s. s ++ rest) (calls-append w (llm_call p ∷ [])) ∙ append_assoc (calls w) (p ∷ []) rest

given-receive : (c : Client) → given (receive c) ≡ given c
given-receive c = given-receive_from c.id c.queue c.written

given-tick : (c : Client) → given (tick c) ≡ given c
unfolding tick
given-tick c = rw (calls-append c.written (ping ∷ [])) (rw append-nil)

given-send :
    (p : Bytes) (c : Client) → length c.queue < capacity → given (send p c) ≡ given c ++ p ∷ []
unfolding send
given-send p c h = ground (arith, append_assoc (calls c.written) c.queue (p ∷ []))

given-send_full :
    (p : Bytes) (c : Client) → ¬ (length c.queue < capacity) → given (send p c) ≡ given c
unfolding send
given-send_full p c h = ground arith

given-react_received : (id : ℕ) (c : Client) → given (react (received id) c) ≡ given c
given-react_received id c = ground (arith, given-receive c)

given-react_ticked : (id : ℕ) (c : Client) → given (react (ticked id) c) ≡ given c
given-react_ticked id c = ground (arith, given-tick c)

length-send : (p : Bytes) (c : Client) → length (send p c).queue ≤ suc (length c.queue)
unfolding send
length-send p c = ground (arith, length-append c.queue (p ∷ []))

length-react_received :
    (id : ℕ) (c : Client) → length (react (received id) c).queue ≤ length c.queue
unfolding receive
length-react_received id c = ground arith

length-react_ticked : (id : ℕ) (c : Client) → length (react (ticked id) c).queue ≤ length c.queue
unfolding tick
length-react_ticked id c = ground arith

-- The second list with some entries left out, in order.
pub data Subsequence : List Bytes → List Bytes → Type 0 where
  done : Subsequence [] []
  keep : {p : Bytes} {xs ys : List Bytes} → Subsequence xs ys → Subsequence (p ∷ xs) (p ∷ ys)
  drop : {p : Bytes} {xs ys : List Bytes} → Subsequence xs ys → Subsequence xs (p ∷ ys)

pub deliver_in_order :
    (es : List Event) (c : Client)
    → (kept : List Bytes) × Subsequence kept (payloads es)
      × (given (deliver es c) ≡ given c ++ kept)
deliver_in_order [] c = ([], done, rw append-nil)
deliver_in_order (opened ∷ es) c = deliver_in_order es c
deliver_in_order (closed id ∷ es) c = deliver_in_order es c
deliver_in_order (published p ∷ es) c =
    let (kept, some_of, exact) = deliver_in_order es (send p c) in
    elim (dec_lt (length c.queue) capacity) [
      | yes room ↦ (
        p ∷ kept,
        keep some_of,
        exact ∙ ap (λ s. s ++ kept) (given-send p c room) ∙ append_assoc (given c) (p ∷ []) kept,
      )
      | no full ↦ (kept, drop some_of, exact ∙ ap (λ s. s ++ kept) (given-send_full p c full))
    ]
deliver_in_order (received id ∷ es) c =
    let (kept, some_of, exact) = deliver_in_order es (react (received id) c) in
    (kept, some_of, exact ∙ ap (λ s. s ++ kept) (given-react_received id c))
deliver_in_order (ticked id ∷ es) c =
    let (kept, some_of, exact) = deliver_in_order es (react (ticked id) c) in
    (kept, some_of, exact ∙ ap (λ s. s ++ kept) (given-react_ticked id c))

pub deliver_all :
    (es : List Event) (c : Client)
    → length c.queue + length (payloads es) ≤ capacity
    → given (deliver es c) ≡ given c ++ payloads es
deliver_all [] c h = rw append-nil
deliver_all (opened ∷ es) c h = deliver_all es c h
deliver_all (closed id ∷ es) c h = deliver_all es c h
deliver_all (published p ∷ es) c h =
    deliver_all es (send p c) (omega (arith, length-send p c))
    ∙ ap (λ s. s ++ payloads es) (given-send p c (omega arith))
    ∙ append_assoc (given c) (p ∷ []) (payloads es)
deliver_all (received id ∷ es) c h =
    deliver_all es (react (received id) c) (omega (arith, length-react_received id c))
    ∙ ap (λ s. s ++ payloads es) (given-react_received id c)
deliver_all (ticked id ∷ es) c h =
    deliver_all es (react (ticked id) c) (omega (arith, length-react_ticked id c))
    ∙ ap (λ s. s ++ payloads es) (given-react_ticked id c)
