-- ===== src/Cmd/Consumer/Maintained.antt =====
-- Which partitions the maintenance of cmd/consumer/main.go has made.
use mathlib.Core.List.{foldl}
use llmwatch.Base.{
  ℕ, zero, suc, subst, ◌*◌, ◌≤◌, Bytes, List, [], ◌∷◌, All, true, bytes_eq, ℤ, pos, ◌+ℤ◌, div_floor,
  Float64, ok, ◌≡◌, refl, sym, ap, ◌∙◌, arith,
}
use llmwatch.Db.Partition.{
  partition_name, CreatePartition, create_partition, PartitionStore, ensure_partition,
}
use llmwatch.Db.Partition.Once.{same_name, known, made}
use llmwatch.Db.Postgres.{Postgres, executor, postgres_store}
use llmwatch.Cmd.Consumer.{day_ms, do_maintenance, run_hourly_maintenance}

module _ {F : Type 0} (P : Postgres F) where
  -- No statement is sent for a time of the three days.
  abbrev pub IsReady : PartitionStore (executor P) → ℤ → Type 0
  IsReady s now =
      (date : ℤ) (offset : ℕ)
      → offset ≤ 2
      → div_floor date day_ms ≡ div_floor (now +ℤ pos (offset * day_ms)) day_ms
      → ensure_partition (executor P) date s ≡ (s, ok tt)

module _ {F : Type 0} ⦃fl : Float64 F⦄ (P : Postgres F)
    (creates : (q : CreatePartition) (s : P.State) → (P.exec q s).1 ≡ ok tt) where
  abbrev ensured : ℤ → PartitionStore (executor P) → PartitionStore (executor P)
  ensured date s = (ensure_partition (executor P) date s).0

  ensured_ok :
      (date : ℤ) (s : PartitionStore (executor P))
      → (ensure_partition (executor P) date s).1 ≡ ok tt
  unfolding ensure_partition
  ensured_ok date s = ground (arith, creates (create_partition date) s.pool)

  -- What is known stays known.
  ensured_kept :
      (date : ℤ) (s : PartitionStore (executor P)) (name : Bytes)
      → s.partitions name ≡ true
      → (ensured date s).partitions name ≡ true
  unfolding ensure_partition
  ensured_kept date s name h = ground (arith, h, creates (create_partition date) s.pool)

  maintained_kept :
      (now : ℤ) (s : PartitionStore (executor P)) (name : Bytes)
      → s.partitions name ≡ true
      → (do_maintenance (postgres_store P) now s).partitions name ≡ true
  unfolding do_maintenance
  maintained_kept now s name h =
      ensured_kept _ _ name (ensured_kept _ _ name (ensured_kept _ s name h))

  -- The three days from a time on are known.
  abbrev IsCovered : PartitionStore (executor P) → ℤ → Type 0
  IsCovered s now =
      (offset : ℕ)
      → offset ≤ 2
      → s.partitions (partition_name (now +ℤ pos (offset * day_ms))) ≡ true

  maintained_covers :
      (now : ℤ) (s : PartitionStore (executor P))
      → IsCovered (do_maintenance (postgres_store P) now s) now
  unfolding do_maintenance
  maintained_covers now s zero h =
      ensured_kept _ _ _ (ensured_kept _ _ _ (made (executor P) _ s (ensured_ok _ s)))
  maintained_covers now s (suc zero) h =
      let s1 = ensured (now +ℤ pos 0) s in
      ensured_kept _ _ _ (made (executor P) _ s1 (ensured_ok _ s1))
  maintained_covers now s (suc (suc zero)) h =
      let s2 = ensured (now +ℤ pos day_ms) (ensured (now +ℤ pos 0) s) in
      made (executor P) _ s2 (ensured_ok _ s2)
  maintained_covers now s (suc (suc (suc n))) h = absurd (omega arith)

  -- Tick after tick.
  abbrev maintain_each : List ℤ → PartitionStore (executor P) → PartitionStore (executor P)
  maintain_each [] s = s
  maintain_each (t ∷ ticks) s = maintain_each ticks (do_maintenance (postgres_store P) t s)

  foldl_each :
      (ticks : List ℤ) (s : PartitionStore (executor P))
      → foldl (λ d t. do_maintenance (postgres_store P) t d) s ticks ≡ maintain_each ticks s
  foldl_each [] s = refl
  foldl_each (t ∷ ticks) s = foldl_each ticks (do_maintenance (postgres_store P) t s)

  each_kept :
      (ticks : List ℤ) (s : PartitionStore (executor P)) (name : Bytes)
      → s.partitions name ≡ true
      → (maintain_each ticks s).partitions name ≡ true
  each_kept [] s name h = h
  each_kept (t ∷ ticks) s name h = each_kept ticks _ name (maintained_kept t s name h)

  each_covers :
      (ticks : List ℤ) (s : PartitionStore (executor P))
      → All (IsCovered (maintain_each ticks s)) ticks
  each_covers [] s = tt
  each_covers (t ∷ ticks) s =
      let s' = do_maintenance (postgres_store P) t s in
      (λ offset h. each_kept ticks s' _ (maintained_covers t s offset h), each_covers ticks s')

  covered-IsReady :
      (s : PartitionStore (executor P)) (ticks : List ℤ)
      → All (IsCovered s) ticks
      → All (IsReady P s) ticks
  covered-IsReady s [] h = tt
  covered-IsReady s (t ∷ ticks) (here, there) = (
    λ date offset near day.
        known (executor P) date s (ap s.partitions (same_name date _ day) ∙ here offset near),
    covered-IsReady s ticks there,
  )

  -- Over a database that makes every partition it is asked for: after the maintenance at the
  -- start and at each tick, for the start and for every tick, EnsurePartition succeeds without
  -- a statement and without a change for every time whose UTC day is that day, the next one or
  -- the one after.
  pub run_hourly_maintenance-All :
      (start : ℤ) (ticks : List ℤ) (s : PartitionStore (executor P))
      → All (IsReady P (run_hourly_maintenance (postgres_store P) start ticks s)) (start ∷ ticks)
  unfolding run_hourly_maintenance
  run_hourly_maintenance-All start ticks s =
      let s' = do_maintenance (postgres_store P) start s in
      subst (λ x. All (IsReady P x) (start ∷ ticks)) (sym (foldl_each ticks s'))
        (covered-IsReady (maintain_each (start ∷ ticks) s) (start ∷ ticks)
          (each_covers (start ∷ ticks) s))
