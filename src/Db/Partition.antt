-- ===== src/Db/Partition.antt =====
-- internal/db/postgres.go: `EnsurePartition`, and the dates of package time that it prints.
pub mod Once
use llmwatch.Base.{
  ℕ, ◌+◌, ◌-◌, ◌*◌, ◌/◌, ◌%◌, Bytes, codes, List, [], ◌∷◌, ◌++◌, Bool, true, false, ltb, leb, ◌==◌,
  ◌||◌, bytes_eq, if◌then◌else◌, ℤ, pos, pos_part, ◌+ℤ◌, div_floor, format_nat, Error, Result, ok,
  err, wrapped,
}

pub record Date : Type 0 where
  pub year : ℕ
  pub month : ℕ
  pub day : ℕ

-- The date in the Gregorian calendar, from the number of days since the first of March of year 0. An
-- era has 400 years and 146097 days; years begin in March.
unfoldable pub civil_date : ℕ → Date
civil_date days =
    let era = days / 146097 in
    let of_era = days % 146097 in
    let year_of_era = (of_era + of_era / 36524 - of_era / 1460 - of_era / 146096) / 365 in
    let of_year = of_era + year_of_era / 100 - 365 * year_of_era - year_of_era / 4 in
    let month_from_march = (5 * of_year + 2) / 153 in
    let early = ltb month_from_march 10 in
    record {
      year = year_of_era + era * 400 + (if early then 0 else 1);
      month = if early then month_from_march + 3 else month_from_march - 9;
      day = of_year - (153 * month_from_march + 2) / 5 + 1;
    }

-- The UTC date of a time in milliseconds, from the year 0 on.
unfoldable pub utc_date : ℤ → Date
unfolding civil_date
utc_date t = civil_date (pos_part (div_floor t 86400000 +ℤ pos 719468))

abbrev pub pad2 : ℕ → Bytes
pad2 n = if ltb n 10 then b'0' ∷ format_nat n else format_nat n

abbrev pub pad4 : ℕ → Bytes
pad4 n =
    if ltb n 100
    then b'0' ∷ b'0' ∷ pad2 n
    else if ltb n 1000
    then b'0' ∷ format_nat n
    else format_nat n

-- Format("2006_01_02") and Format("2006-01-02"), with the separator.
unfoldable pub format_date : ℕ → Date → Bytes
format_date sep d = pad4 d.year ++ sep ∷ (pad2 d.month ++ sep ∷ pad2 d.day)

unfoldable pub partition_name : ℤ → Bytes
unfolding utc_date format_date
partition_name date = codes "llm_calls_" ++ format_date b'_' (utc_date date)

-- The statement: the name of the partition and the bounds of its range.
pub record CreatePartition : Type 0 where
  pub name : Bytes
  pub from : Bytes
  pub to : Bytes

unfoldable pub create_partition : ℤ → CreatePartition
unfolding partition_name
create_partition date = record {
  name = partition_name date;
  from = format_date b'-' (utc_date date);
  to = format_date b'-' (utc_date (date +ℤ pos 86400000));
}

-- The execution of the statement by the pool.
pub record Executor : Type 1 where
  pub State : Type 0
  pub exec : CreatePartition → State → State × Result (Unit {0})

-- `PostgresStore` with its map of the partitions that are known to exist.
pub record PartitionStore (E : Executor) : Type 0 where
  pub pool : E.State
  pub partitions : Bytes → Bool

module _ (E : Executor) where
  unfoldable pub ensure_partition : ℤ → PartitionStore E → PartitionStore E × Result (Unit {0})
  unfolding create_partition
  ensure_partition date s =
      let name = partition_name date in
      elim (s.partitions name) [
        | true ↦ (s, ok tt)
        | false ↦
            let (p, done) = E.exec (create_partition date) s.pool in
            elim done [
              | err x ↦
                  (record s { pool = p }, err (wrapped (codes "db: ensure partition " ++ name) x))
              | ok _ ↦ (record { pool = p; partitions = λ n. n == name || s.partitions n }, ok tt)
            ]
      ]
