-- ===== src/Metrics/Processor.antt =====
-- internal/metrics/processor.go: `Process` and `updateRealTimeCounters`, over any store and cache.
pub mod Outcomes
pub mod Redelivery
use llmwatch.Base.{
  ◌+◌, Bytes, codes, ◌++◌, Bool, true, false, ℤ, Float64, Error, Result, ok, err, wrapped,
}
use llmwatch.Models.{LlmCallEvent, normalize, validate}
use llmwatch.Db.Store.{Store}
use llmwatch.Redis.Cache.{Cache}

pub record ProcessResult : Type 0 where
  pub event_id : Bytes
  pub duplicate : Bool
  pub inserted : Bool

-- The state behind the two interfaces.
pub record World {F : Type 0} (S : Store F) (C : Cache F) : Type 0 where
  pub db : S.State
  pub cache : C.State

-- `fmt.Errorf("…: %w", err)` on a result.
abbrev pub in_context : {A : Type 0} → Bytes → Result A → Result A
in_context text (ok a) = ok a
in_context text (err e) = err (wrapped text e)

module _ {F : Type 0} ⦃fl : Float64 F⦄ (S : Store F) (C : Cache F) where
  -- The three counters in turn; the first failure is returned and skips the rest.
  unfoldable pub update_real_time_counters :
      LlmCallEvent F → ℤ → C.State → C.State × Result (Unit {0})
  update_real_time_counters e ts c0 =
      let (c1, calls) = C.incr_calls_per_minute ts c0 in
      elim calls [
        | err x ↦ (c1, err (wrapped (codes "incr calls per minute") x))
        | ok _ ↦
            let (c2, latency) = C.append_latency e.provider e.model e.latency_ms c1 in
            elim latency [
              | err x ↦ (c2, err (wrapped (codes "append latency") x))
              | ok _ ↦
                  let (c3, cost) = C.incr_cost e.provider e.cost_usd c2 in
                  (c3, in_context (codes "incr cost") cost)
            ]
      ]

  -- Steps 3 and 4. A failure to make the partition is logged, and so is one of the counters.
  unfoldable pub store_event : Bytes → LlmCallEvent F → World S C → World S C × Result ProcessResult
  unfolding update_real_time_counters
  store_event result_id e w =
      let (d1, partition) = S.ensure_partition e.timestamp w.db in
      let (d2, inserted) = S.insert_event e d1 in
      elim inserted [
        | err x ↦
            (record w { db = d2 }, err (wrapped (codes "processor: insert event " ++ e.event_id) x))
        | ok fresh ↦
            let (c, counted) = update_real_time_counters e e.timestamp w.cache in
            (
              record { db = d2; cache = c },
              ok (record { event_id = result_id; duplicate = false; inserted = fresh }),
            )
      ]

  -- Step 2 on the answer of the cache; a failure is logged and taken for "not seen".
  unfoldable pub after_dedup :
      Bytes → LlmCallEvent F → World S C → Result Bool → World S C × Result ProcessResult
  after_dedup result_id e w (ok true) =
      (w, ok (record { event_id = result_id; duplicate = true; inserted = false }))
  after_dedup result_id e w (ok false) = store_event result_id e w
  after_dedup result_id e w (err x) = store_event result_id e w

  -- `new_id` and `now` are what Normalize would fill in. The result takes its id before that.
  unfoldable pub process : Bytes → ℤ → LlmCallEvent F → World S C → World S C × Result ProcessResult
  unfolding after_dedup
  process new_id now event w =
      let e = normalize new_id now event in
      elim (validate e) [
        | err x ↦ (w, err (wrapped (codes "processor: invalid event " ++ e.event_id) x))
        | ok _ ↦
            let (c, seen) = C.is_duplicate e.event_id w.cache in
            after_dedup event.event_id e (record w { cache = c }) seen
      ]
