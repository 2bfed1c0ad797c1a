-- ===== src/Cmd/Consumer/Counts.antt =====
-- The counters of the consumer against the events that its loop has handled.
use llmwatch.Base.{
  ℕ, ◌+◌, Bytes, codes, List, [], ◌∷◌, ◌++◌, ℤ, Float64, if◌then◌else◌, ◌≡◌, length, length-append,
  arith, ◌==◌, bytes_eq, bytes_beq,
}
use llmwatch.Models.{LlmCallEvent}
use llmwatch.Db.Store.{Store}
use llmwatch.Redis.Cache.{Cache}
use llmwatch.Kafka.Message.{Codec}
use llmwatch.Kafka.Consumer.{Round, End, Run, consume}
use llmwatch.Kafka.Consumer.Delivery.{replay, decoded, consume-IsServed}
use llmwatch.Cmd.Consumer.{Worker, build_handler}

abbrev Label : Type 0
Label = Bytes × Bytes × Bytes

-- The increments with the label "duplicate".
abbrev pub duplicate_labels : List (Bytes × Bytes × Bytes) → ℕ
duplicate_labels [] = 0
duplicate_labels ((p, s, r) ∷ labels) =
    (if r == codes "duplicate" then 1 else 0) + duplicate_labels labels

duplicate_labels-append :
    (xs ys : List (Bytes × Bytes × Bytes))
    → duplicate_labels (xs ++ ys) ≡ duplicate_labels xs + duplicate_labels ys
duplicate_labels-append [] ys = omega arith
duplicate_labels-append ((p, s, r) ∷ xs) ys = omega (arith, duplicate_labels-append xs ys)

-- Every handled event is counted once, and the two counters agree on the duplicates.
pub record IsCounted {F : Type 0} (S : Store F) (C : Cache F) (r : Run F (Worker S C))
    : Type 0 where
  pub processed : length r.state.counters.processed ≡ length r.handled
  pub duplicates : duplicate_labels r.state.counters.processed ≡ r.state.counters.duplicates

module _ {F : Type 0} ⦃fl : Float64 F⦄ (S : Store F) (C : Cache F) (new_id : ℕ → Bytes)
    (now : ℕ → ℤ) where
  handler_counts :
      (e : LlmCallEvent F) (w : Worker S C)
      → let c = (build_handler S C new_id now e w).0.counters in
        (length c.processed ≡ length w.counters.processed + 1)
        × (duplicate_labels c.processed + w.counters.duplicates
            ≡ duplicate_labels w.counters.processed + c.duplicates)
  unfolding build_handler bytes_beq
  handler_counts e w =
      let old = w.counters.processed in
      let failed : Label = (e.provider, e.status, codes "error") in
      let skipped : Label = (e.provider, e.status, codes "duplicate") in
      let stored : Label = (e.provider, e.status, codes "ok") in
      ground (
        arith,
        length-append old (failed ∷ []),
        length-append old (skipped ∷ []),
        length-append old (stored ∷ []),
        duplicate_labels-append old (failed ∷ []),
        duplicate_labels-append old (skipped ∷ []),
        duplicate_labels-append old (stored ∷ []),
      )

  replay_counts :
      (es : List (LlmCallEvent F)) (w : Worker S C)
      → let w' = replay (build_handler S C new_id now) es w in
        (length w'.counters.processed ≡ length w.counters.processed + length es)
        × (duplicate_labels w'.counters.processed + w.counters.duplicates
            ≡ duplicate_labels w.counters.processed + w'.counters.duplicates)
  replay_counts [] w = omega arith
  replay_counts (e ∷ es) w =
      omega (arith, handler_counts e w, replay_counts es (build_handler S C new_id now e w).0)

  -- Through any run of the consume loop, with any failures, the consumer's counters stay right
  -- if they were at its start: one increment of eventsProcessedTotal for each call of the
  -- handler, and as many increments of duplicateEventsTotal as of the label duplicate.
  pub consume-IsCounted :
      (c : Codec F) (ds : List Round) (end : End) (r : Run F (Worker S C))
      → IsCounted S C r
      → IsCounted S C (consume c (build_handler S C new_id now) ds end r).0
  consume-IsCounted c ds end r h =
      let s = consume-IsServed c (build_handler S C new_id now) ds end r in
      let fresh = decoded c s.served in
      let counts = replay_counts fresh r.state in
      rw s.run (record {
        processed = omega (arith, h.processed, counts.0, length-append r.handled fresh);
        duplicates = omega (arith, h.duplicates, counts.1);
      })
