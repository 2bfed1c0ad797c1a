-- ===== src/Cmd/Consumer.antt =====
-- cmd/consumer/main.go: `buildHandler`, `doMaintenance` and `runHourlyMaintenance`.
pub mod Counts
pub mod Start
pub mod Stored
pub mod Fresh
pub mod Maintained
pub mod Journey
use mathlib.Core.List.{foldl}
use llmwatch.Base.{
  ℕ, ◌+◌, ◌*◌, Bytes, codes, List, [], ◌∷◌, ◌++◌, Bool, ℤ, pos, ◌+ℤ◌, Float64, Result, ok, err,
  if◌then◌else◌,
}
use llmwatch.Models.{LlmCallEvent}
use llmwatch.Db.Store.{Store}
use llmwatch.Redis.Cache.{Cache}
use llmwatch.Metrics.Processor.{World, ProcessResult, process}

-- The Prometheus counters of the consumer: the labels (provider, status, result) of the increments
-- of eventsProcessedTotal in order, and duplicateEventsTotal.
pub record Counters : Type 0 where
  pub processed : List (Bytes × Bytes × Bytes)
  pub duplicates : ℕ

-- What the handler works on; `calls` counts its calls.
pub record Worker {F : Type 0} (S : Store F) (C : Cache F) : Type 0 where
  pub world : World S C
  pub counters : Counters
  pub calls : ℕ

unfoldable pub count : Bytes → Bytes → Bytes → Counters → Counters
count provider status result c = record c {
  processed = c.processed ++ (provider, status, result) ∷ [];
}

module _ {F : Type 0} ⦃fl : Float64 F⦄ (S : Store F) (C : Cache F) (new_id : ℕ → Bytes)
    (now : ℕ → ℤ) where
  -- The handler. `new_id n` and `now n` are what Normalize would fill in at the n-th call; it
  -- changes neither the provider nor the status of the event, which are the labels.
  unfoldable pub build_handler : LlmCallEvent F → Worker S C → Worker S C × Result (Unit {0})
  unfolding count
  build_handler e w =
      let (world, outcome) = process S C (new_id w.calls) (now w.calls) e w.world in
      let w' : Worker S C = record w { world = world; calls = w.calls + 1 } in
      elim outcome [
        | err x ↦
            (record w' { counters = count e.provider e.status (codes "error") w.counters }, err x)
        | ok r ↦
            if r.duplicate
            then (
              record w' {
                counters =
                    count e.provider e.status (codes "duplicate")
                      (record (w.counters) { duplicates = w.counters.duplicates + 1 });
              },
              ok tt,
            )
            else (record w' { counters = count e.provider e.status (codes "ok") w.counters }, ok tt)
      ]

-- A day in milliseconds.
abbrev pub day_ms : ℕ
day_ms = 24 * 60 * 60 * 1000

module _ {F : Type 0} (S : Store F) where
  -- The loop over the offsets 0, 1 and 2; a failure is logged.
  unfoldable pub do_maintenance : ℤ → S.State → S.State
  do_maintenance now s =
      foldl (λ d offset. (S.ensure_partition (now +ℤ pos (offset * day_ms)) d).0) s (0 ∷ 1 ∷ 2 ∷ [])

  -- At startup and at each tick, until the context is done.
  unfoldable pub run_hourly_maintenance : ℤ → List ℤ → S.State → S.State
  unfolding do_maintenance
  run_hourly_maintenance start ticks s =
      foldl (λ d t. do_maintenance t d) (do_maintenance start s) ticks
