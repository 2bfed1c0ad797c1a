-- ===== src/Tests/Tables.antt =====
-- The table of calls at concrete rows.
use llmwatch.Base.{codes, bytes_eq, int_eq, pos, ◌≡◌, refl}
use llmwatch.Base.{◌+ℤ◌, format_nat, div_floor}
use llmwatch.Db.Partition.{utc_date, format_date, partition_name, create_partition}

-- The last millisecond of a leap day.
leap_day : partition_name (pos 1709251199999) ≡ codes "llm_calls_2024_02_29"
unfolding partition_name format_nat ◌+ℤ◌ div_floor
leap_day = refl

next_day : (create_partition (pos 1709251199999)).to ≡ codes "2024-03-01"
unfolding create_partition format_nat utc_date format_date ◌+ℤ◌ div_floor
next_day = refl
