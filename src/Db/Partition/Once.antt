-- ===== src/Db/Partition/Once.antt =====
-- When `EnsurePartition` of internal/db/postgres.go asks the database.
use llmwatch.Base.{
  codes, ◌++◌, true, bytes_eq, bytes_beq_iff, ℤ, div_floor, Error, ok, err, ◌≡◌, sym, ap, ◌∙◌,
  arith, pos, pos_part, ◌+ℤ◌,
}
use llmwatch.Db.Partition.{
  civil_date, utc_date, format_date, partition_name, create_partition, Executor, PartitionStore,
  ensure_partition,
}

pub same_name :
    (a b : ℤ) → div_floor a 86400000 ≡ div_floor b 86400000 → partition_name a ≡ partition_name b
unfolding partition_name utc_date
same_name a b e =
    ap (λ d. codes "llm_calls_" ++ format_date b'_' (civil_date (pos_part (d +ℤ pos 719468)))) e

module _ (E : Executor) where
  pub known :
      (date : ℤ) (s : PartitionStore E)
      → s.partitions (partition_name date) ≡ true
      → ensure_partition E date s ≡ (s, ok tt)
  unfolding ensure_partition
  known date s h = ground arith

  pub made :
      (date : ℤ) (s : PartitionStore E)
      → (ensure_partition E date s).1 ≡ ok tt
      → (ensure_partition E date s).0.partitions (partition_name date) ≡ true
  unfolding ensure_partition
  made date s h = ground (arith, bytes_beq_iff (partition_name date) (partition_name date))

  -- Once EnsurePartition has succeeded for a time, it succeeds for every time of the same UTC
  -- day without asking the database, and changes nothing.
  pub ensure_partition_once :
      (a b : ℤ) (s : PartitionStore E)
      → (ensure_partition E a s).1 ≡ ok tt
      → div_floor a 86400000 ≡ div_floor b 86400000
      → let s' = (ensure_partition E a s).0 in ensure_partition E b s' ≡ (s', ok tt)
  ensure_partition_once a b s done day =
      known b (ensure_partition E a s).0
        (ap (ensure_partition E a s).0.partitions (sym (same_name a b day)) ∙ made a s done)

  -- When EnsurePartition fails, it remembers nothing: the next call for the time sends the
  -- statement again.
  pub ensure_partition_again :
      (date : ℤ) (s : PartitionStore E) {x : Error}
      → (ensure_partition E date s).1 ≡ err x
      → let s' = (ensure_partition E date s).0 in
        (s'.partitions ≡ s.partitions)
        × ((ensure_partition E date s').0.pool ≡ (E.exec (create_partition date) s'.pool).0)
  unfolding ensure_partition
  ensure_partition_again date s failed = ground arith
