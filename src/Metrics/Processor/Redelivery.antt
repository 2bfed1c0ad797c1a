-- ===== src/Metrics/Processor/Redelivery.antt =====
-- A second delivery of an event: `Process` of internal/metrics/processor.go.
use llmwatch.Base.{
  List, ◌∷◌, Bytes, Bool, true, false, ℤ, Float64, ok, ◌≡◌, ◌≢◌, refl, sym, ap, ◌∙◌, arith, [],
  bytes_eq, bytes_beq_iff,
}
use llmwatch.Models.{LlmCallEvent, normalize, validate}
use llmwatch.Db.Store.{Store}
use llmwatch.Redis.Cache.{Cache, IsLawful}
use llmwatch.Metrics.Processor.{World, process, store_event, after_dedup, update_real_time_counters}

module _ {F : Type 0} ⦃fl : Float64 F⦄ where
  normalize_keeps_id :
      (new_id : Bytes) (now : ℤ) (e : LlmCallEvent F)
      → e.event_id ≢ []
      → (normalize new_id now e).event_id ≡ e.event_id
  unfolding normalize
  normalize_keeps_id new_id now e named = ground (arith, bytes_beq_iff e.event_id [])

  -- Validation does not look at what Normalize fills in.
  validate-normalize :
      (new_id : Bytes) (now : ℤ) (e : LlmCallEvent F)
      → validate (normalize new_id now e) ≡ validate e
  unfolding normalize validate
  validate-normalize new_id now e = refl

module _ {F : Type 0} ⦃fl : Float64 F⦄ (S : Store F) (C : Cache F) where
  -- One delivery after another, each with what Normalize would fill in.
  abbrev pub process_each : List (Bytes × ℤ × LlmCallEvent F) → World S C → World S C
  process_each [] w = w
  process_each ((new_id, now, event) ∷ others) w =
      process_each others (process S C new_id now event w).0

module _ {F : Type 0} ⦃fl : Float64 F⦄ (S : Store F) (C : Cache F) (seen : C.State → Bytes → Bool)
    (L : IsLawful C seen) where
  counters-seen :
      (e : LlmCallEvent F) (ts : ℤ) (k : Bytes) (c : C.State)
      → seen (update_real_time_counters S C e ts c).0 k ≡ seen c k
  unfolding update_real_time_counters
  counters-seen e ts k c =
      let c1 = (C.incr_calls_per_minute ts c).0 in
      let c2 = (C.append_latency e.provider e.model e.latency_ms c1).0 in
      ground (
        arith,
        L.seen-incr_calls_per_minute ts k c,
        L.seen-append_latency e.provider e.model e.latency_ms k c1,
        L.seen-incr_cost e.provider e.cost_usd k c2,
      )

  pub store_event-seen :
      (id : Bytes) (e : LlmCallEvent F) (k : Bytes) (w : World S C)
      → seen (store_event S C id e w).0.cache k ≡ seen w.cache k
  unfolding store_event
  store_event-seen id e k w = ground (arith, counters-seen e e.timestamp k w.cache)

  -- After processing, an id that was marked is marked still.
  process-seen :
      (new_id : Bytes) (now : ℤ) (event : LlmCallEvent F) (w : World S C) {b : Bool}
      → let e = normalize new_id now event in
        validate e ≡ ok tt
        → (C.is_duplicate e.event_id w.cache).1 ≡ ok b
        → seen (process S C new_id now event w).0.cache e.event_id ≡ true
  unfolding process after_dedup
  process-seen new_id now event w valid answered =
      let e = normalize new_id now event in
      let w1 : World S C = record w { cache = (C.is_duplicate e.event_id w.cache).0 } in
      ground (
        arith,
        L.marked e.event_id e.event_id w.cache answered,
        bytes_beq_iff e.event_id e.event_id,
        store_event-seen event.event_id e e.event_id w1,
      )

  -- An id that is marked stays so whatever is processed.
  process-kept :
      (new_id : Bytes) (now : ℤ) (event : LlmCallEvent F) (w : World S C) (k : Bytes)
      → seen w.cache k ≡ true
      → seen (process S C new_id now event w).0.cache k ≡ true
  unfolding process after_dedup
  process-kept new_id now event w k known =
      let e = normalize new_id now event in
      let w1 : World S C = record w { cache = (C.is_duplicate e.event_id w.cache).0 } in
      ground (arith, L.kept e.event_id k w.cache known, store_event-seen event.event_id e k w1)

  process_each-kept :
      (others : List (Bytes × ℤ × LlmCallEvent F)) (w : World S C) (k : Bytes)
      → seen w.cache k ≡ true
      → seen (process_each S C others w).cache k ≡ true
  process_each-kept [] w k known = known
  process_each-kept ((new_id, now, event) ∷ others) w k known =
      process_each-kept others (process S C new_id now event w).0 k
        (process-kept new_id now event w k known)

  skip_seen :
      (new_id : Bytes) (now : ℤ) (event : LlmCallEvent F) (w : World S C) {b : Bool}
      → let e = normalize new_id now event in
        validate e ≡ ok tt
        → seen w.cache e.event_id ≡ true
        → (C.is_duplicate e.event_id w.cache).1 ≡ ok b
        → let p = process S C new_id now event w in
          (p.0.db ≡ w.db)
          × (p.1 ≡ ok (record { event_id = event.event_id; duplicate = true; inserted = false }))
  unfolding process after_dedup
  skip_seen new_id now event w valid known answered =
      let e = normalize new_id now event in ground (arith, L.answer e.event_id w.cache answered)

  -- Over a cache that keeps its promise: when a valid event with an id is delivered and the
  -- check for duplicates has answered, and the event is delivered again after any other
  -- deliveries, whatever became of them, and the check answers, this delivery is reported as a
  -- duplicate and changes nothing in the database, whether or not the first delivery has stored
  -- the event.
  pub process_twice :
      (new_id later_id : Bytes) (now later : ℤ) (event : LlmCallEvent F)
      (others : List (Bytes × ℤ × LlmCallEvent F)) (w : World S C) {a b : Bool}
      → event.event_id ≢ []
      → validate event ≡ ok tt
      → (C.is_duplicate event.event_id w.cache).1 ≡ ok a
      → let w' = process_each S C others (process S C new_id now event w).0 in
        (C.is_duplicate event.event_id w'.cache).1 ≡ ok b
        → let p = process S C later_id later event w' in
          (p.0.db ≡ w'.db)
          × (p.1 ≡ ok (record { event_id = event.event_id; duplicate = true; inserted = false }))
  process_twice new_id later_id now later event others w named valid first second =
      let w1 = (process S C new_id now event w).0 in
      let w' = process_each S C others w1 in
      let same = normalize_keeps_id new_id now event named in
      let same' = normalize_keeps_id later_id later event named in
      let marked =
        process-seen new_id now event w (validate-normalize new_id now event ∙ valid)
          (ap (λ k. (C.is_duplicate k w.cache).1) same ∙ first) in
      skip_seen later_id later event w' (validate-normalize later_id later event ∙ valid)
        (ap (seen w'.cache) (same' ∙ sym same) ∙ process_each-kept others w1 _ marked)
        (ap (λ k. (C.is_duplicate k w'.cache).1) same' ∙ second)
