-- ===== src/Cmd/Consumer/Stored.antt =====
-- What the consumer leaves in the table of calls: the handler of cmd/consumer/main.go over the processor,
-- the store over PostgreSQL and any lawful cache.
use llmwatch.Base.{
  ℕ, ◌+◌, Bytes, List, [], ◌∷◌, All, Bool, ◌==◌, ◌||◌, bytes_eq, if◌then◌else◌, ℤ, Float64, Error,
  Result, ok, err, ◌≡◌, refl, ap, ◌∙◌, inl, inr, arith, Result-cases,
}
use llmwatch.Models.{LlmCallEvent, normalize, validate}
use llmwatch.Db.Calls.{Row, row_of, insert_event}
use llmwatch.Db.Calls.Columns.{ColumnTypes}
use llmwatch.Db.Calls.Rows.{IsTable, insert_row, insert_event_rows}
use llmwatch.Db.Partition.{CreatePartition, create_partition, PartitionStore, ensure_partition}
use llmwatch.Db.Postgres.{Postgres, calls_pool, executor, postgres_store}
use llmwatch.Redis.Cache.{Cache, IsLawful}
use llmwatch.Metrics.Processor.{World, process, after_dedup, store_event}
use llmwatch.Metrics.Processor.Redelivery.{store_event-seen}
use llmwatch.Kafka.Message.{Codec}
use llmwatch.Kafka.Consumer.{Round, End, Run, consume}
use llmwatch.Kafka.Consumer.Delivery.{replay, decoded, consume_to_end}
use llmwatch.Cmd.Consumer.{Worker, build_handler}

-- A table that is reached, and whose rows no statement for a partition changes.
pub record IsDatabase {F : Type 0} (T : ColumnTypes F) (P : Postgres F)
    (rows : P.State → List (Row F)) : Type 0 where
  pub inserts : IsTable T (calls_pool P) rows
  pub partitioned : (q : CreatePartition) (s : P.State) → rows (P.exec q s).0 ≡ rows s

abbrev pub insert_all :
    {F : Type 0} → ColumnTypes F → List (Row F) → List (LlmCallEvent F) → List (Row F)
insert_all T rows [] = rows
insert_all T rows (e ∷ es) = insert_all T (insert_row T rows (row_of e)) es

module _ {F : Type 0} ⦃fl : Float64 F⦄ (new_id : ℕ → Bytes) (now : ℕ → ℤ) where
  -- The events to store, of those delivered from the n-th call on: each valid one whose id is not
  -- known and was not delivered before, with its defaults filled in.
  abbrev pub first_deliveries : ℕ → (Bytes → Bool) → List (LlmCallEvent F) → List (LlmCallEvent F)
  first_deliveries n known [] = []
  first_deliveries n known (event ∷ es) =
      let e = normalize (new_id n) (now n) event in
      elim (validate e) [
        | err x ↦ first_deliveries (n + 1) known es
        | ok _ ↦
            let rest = first_deliveries (n + 1) (λ j. j == e.event_id || known j) es in
            if known e.event_id then rest else e ∷ rest
      ]

module _ {F : Type 0} ⦃fl : Float64 F⦄ (T : ColumnTypes F) (P : Postgres F)
    (rows : P.State → List (Row F)) (database : IsDatabase T P rows) where
  ensure_partition_rows :
      (date : ℤ) (s : PartitionStore (executor P))
      → rows (ensure_partition (executor P) date s).0.pool ≡ rows s.pool
  unfolding ensure_partition
  ensure_partition_rows date s = ground (arith, database.partitioned (create_partition date) s.pool)

  module _ (C : Cache F) where
    store_event_rows :
        (id : Bytes) (e : LlmCallEvent F) (w : World (postgres_store P) C)
        → rows (store_event (postgres_store P) C id e w).0.db.pool
          ≡ insert_row T (rows w.db.pool) (row_of e)
    unfolding store_event
    store_event_rows id e w =
        let s = (ensure_partition (executor P) e.timestamp w.db).0 in
        let stored =
          insert_event_rows T (calls_pool P) rows database.inserts e s.pool
          ∙ ap (λ rs. insert_row T rs (row_of e)) (ensure_partition_rows e.timestamp w.db) in
        elim (Result-cases (insert_event (calls_pool P) e s.pool).1) [
          | inl (b, answered) ↦ ground (arith, answered, stored)
          | inr (x, refused) ↦ ground (arith, refused, stored)
        ]

    module _ (seen : C.State → Bytes → Bool) (lawful : IsLawful C seen)
        (checks : (k : Bytes) (c : C.State) → (b : Bool) × ((C.is_duplicate k c).1 ≡ ok b)) where
      -- Process on a valid event.
      processed_rows :
          (new_id : Bytes) (now : ℤ) (event : LlmCallEvent F) (w : World (postgres_store P) C)
          → let e = normalize new_id now event in
            validate e ≡ ok tt
            → rows (process (postgres_store P) C new_id now event w).0.db.pool ≡ (
                if seen w.cache e.event_id
                then rows w.db.pool
                else insert_row T (rows w.db.pool) (row_of e))
      unfolding process after_dedup
      processed_rows new_id now event w valid =
          let e = normalize new_id now event in
          let (b, answered) = checks e.event_id w.cache in
          let w1 : World (postgres_store P) C = record w {
            cache = (C.is_duplicate e.event_id w.cache).0;
          } in
          ground (
            arith,
            valid,
            answered,
            lawful.answer e.event_id w.cache answered,
            store_event_rows event.event_id e w1,
          )

      processed_marks :
          (new_id : Bytes) (now : ℤ) (event : LlmCallEvent F) (w : World (postgres_store P) C)
          (j : Bytes)
          → let e = normalize new_id now event in
            validate e ≡ ok tt
            → seen (process (postgres_store P) C new_id now event w).0.cache j
              ≡ (j == e.event_id || seen w.cache j)
      unfolding process after_dedup
      processed_marks new_id now event w j valid =
          let e = normalize new_id now event in
          let (b, answered) = checks e.event_id w.cache in
          let w1 : World (postgres_store P) C = record w {
            cache = (C.is_duplicate e.event_id w.cache).0;
          } in
          ground (
            arith,
            valid,
            answered,
            lawful.marked e.event_id j w.cache answered,
            store_event-seen (postgres_store P) C seen lawful event.event_id e j w1,
          )

      module _ (new_id : ℕ → Bytes) (now : ℕ → ℤ) where
        abbrev handler :
            LlmCallEvent F
            → Worker (postgres_store P) C
            → Worker (postgres_store P) C × Result (Unit {0})
        handler = build_handler (postgres_store P) C new_id now

        -- A call of the handler processes the event, and is counted.
        handled :
            (event : LlmCallEvent F) (w : Worker (postgres_store P) C)
            → ((handler event w).0.world
                ≡ (process (postgres_store P) C (new_id w.calls) (now w.calls) event w.world).0)
              × ((handler event w).0.calls ≡ w.calls + 1)
        unfolding build_handler
        handled event w = ground arith

        handled_invalid :
            (event : LlmCallEvent F) (w : Worker (postgres_store P) C) {x : Error}
            → validate (normalize (new_id w.calls) (now w.calls) event) ≡ err x
            → (process (postgres_store P) C (new_id w.calls) (now w.calls) event w.world).0
              ≡ w.world
        unfolding process
        handled_invalid event w bad = ground (arith, bad)

        replay_rows :
            (es : List (LlmCallEvent F)) (known : Bytes → Bool) (w : Worker (postgres_store P) C)
            → ((j : Bytes) → seen w.world.cache j ≡ known j)
            → rows (replay handler es w).world.db.pool
              ≡ insert_all T (rows w.world.db.pool) (first_deliveries new_id now w.calls known es)
        replay_rows [] known w same = refl
        replay_rows (event ∷ es) known w same =
            let e = normalize (new_id w.calls) (now w.calls) event in
            let w' = (handler event w).0 in
            let (world, calls) = handled event w in
            elim (Result-cases (validate e)) [
              | inr (x, bad) ↦
                  let still = world ∙ handled_invalid event w bad in
                  let rest = replay_rows es known w' λ j. ap (λ v. seen v.cache j) still ∙ same j in
                  ground (arith, rest, calls, bad, ap (λ v. rows v.db.pool) still)
              | inl (_, good) ↦
                  let marks = λ (j : Bytes).
                    processed_marks (new_id w.calls) (now w.calls) event w.world j good in
                  let stored = processed_rows (new_id w.calls) (now w.calls) event w.world good in
                  let rest =
                    replay_rows es (λ j. j == e.event_id || known j) w'
                      λ j.
                        ap (λ v. seen v.cache j) world
                        ∙ marks j
                        ∙ ap (λ b. j == e.event_id || b) (same j) in
                  ground (
                    arith,
                    rest,
                    calls,
                    good,
                    ap (λ v. rows v.db.pool) world ∙ stored,
                    same e.event_id,
                  )
            ]

        -- Over a cache that keeps its promise and always answers, and a database that is
        -- reached throughout and where no statement for a partition changes a row: when every
        -- commit succeeds, consuming inserts each valid event, with its defaults filled in,
        -- whose id was not marked before and was not delivered before, in the order of delivery
        -- and once. Each is stored in the form in which its columns store it, and not at all
        -- when a column refuses it or the table has its key; nothing else is added and nothing
        -- removed.
        pub consume_stores :
            (codec : Codec F) (ds : List Round) (end : End)
            (r : Run F (Worker (postgres_store P) C))
            → All (λ d. d.commit ≡ ok tt) ds
            → let r' = (consume codec (build_handler (postgres_store P) C new_id now) ds end r).0 in
              rows r'.state.world.db.pool
              ≡ insert_all T (rows r.state.world.db.pool) (
                  first_deliveries new_id now r.state.calls
                    (seen r.state.world.cache)
                    (decoded codec ds))
        consume_stores codec ds end r commits =
            ap
              (λ (x : Run F (Worker (postgres_store P) C) × Result (Unit {0})).
                rows x.0.state.world.db.pool)
              (consume_to_end codec handler ds end r commits).0
            ∙ replay_rows (decoded codec ds) (seen r.state.world.cache) r.state λ j. refl
