-- ===== src/Metrics/Processor/Outcomes.antt =====
-- When processing fails, and what it stores: `Process` of internal/metrics/processor.go.
use llmwatch.Base.{Bytes, Bool, false, ℤ, Float64, Error, Result, ok, err, ◌≡◌, ◌⊎◌, arith}
use llmwatch.Models.{LlmCallEvent, normalize, validate}
use llmwatch.Db.Store.{Store}
use llmwatch.Redis.Cache.{Cache}
use llmwatch.Metrics.Processor.{World, process, store_event, after_dedup}

-- Whether the cache's answer makes the processor skip the event.
abbrev pub skips : Result Bool → Bool
skips (ok b) = b
skips (err x) = false

module _ {F : Type 0} ⦃fl : Float64 F⦄ (S : Store F) where
  after_dedup-skips :
      (C D : Cache F) (result_id : Bytes) (e : LlmCallEvent F) (v : World S C) (w : World S D)
      (a b : Result Bool)
      → v.db ≡ w.db
      → skips a ≡ skips b
      → let p = after_dedup S C result_id e v a in
        let q = after_dedup S D result_id e w b in (p.0.db ≡ q.0.db) × (p.1 ≡ q.1)
  unfolding after_dedup store_event
  after_dedup-skips C D result_id e v w a b = ground arith

  -- What Process stores and returns depends on the cache only through whether it reports a
  -- duplicate: over two caches with the same verdict on the id, from equal databases, it leads
  -- to the same database and the same result, however their counters do or fail.
  pub process_best_effort :
      (C D : Cache F) (new_id : Bytes) (now : ℤ) (event : LlmCallEvent F) (v : World S C)
      (w : World S D)
      → v.db ≡ w.db
      → let id = (normalize new_id now event).event_id in
        skips (C.is_duplicate id v.cache).1 ≡ skips (D.is_duplicate id w.cache).1
        → let p = process S C new_id now event v in
          let q = process S D new_id now event w in (p.0.db ≡ q.0.db) × (p.1 ≡ q.1)
  unfolding process
  process_best_effort C D new_id now event v w same verdict =
      let e = normalize new_id now event in
      let a = C.is_duplicate e.event_id v.cache in
      let b = D.is_duplicate e.event_id w.cache in
      ground (
        arith,
        after_dedup-skips C D event.event_id e (record v { cache = a.0 }) (record w { cache = b.0 })
            a.1 b.1 same verdict,
      )

  module _ (C : Cache F) where
    -- When Process fails, either the event is invalid and neither the database nor the cache is
    -- touched, or the insert has failed and the cache is as the check for duplicates has left
    -- it, so that no counter is updated.
    pub process_failed :
        (new_id : Bytes) (now : ℤ) (event : LlmCallEvent F) (w : World S C) {x : Error}
        → (process S C new_id now event w).1 ≡ err x
        → let e = normalize new_id now event in
          let w' = (process S C new_id now event w).0 in
          ((y : Error) × (validate e ≡ err y) × (w' ≡ w))
          ⊎ ((y : Error) × ((S.insert_event e (S.ensure_partition e.timestamp w.db).0).1 ≡ err y)
              × (w'.cache ≡ (C.is_duplicate e.event_id w.cache).0))
    unfolding process after_dedup store_event
    process_failed new_id now event w failed = ground arith
