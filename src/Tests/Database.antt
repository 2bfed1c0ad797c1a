-- ===== src/Tests/Database.antt =====
-- A database with all the statements at concrete rows.
use mathlib.Core.List.{Permᴰ}
use llmwatch.Base.{
  Bytes, Option, none, some, true, leb, ◌==◌, nat_eq, get_or, Error, err, All, ℕ, ◌+◌, ◌*◌, ◌/◌,
  codes, List, [], ◌∷◌, ◌++◌, map, length, false, bytes_eq, int_eq, bytes_beq, if◌then◌else◌, ℤ,
  pos, negsuc, pos_part, Result, ok, ok_injective, format_nat, ◌≡◌, refl, sym, arith,
}
use llmwatch.Models.Views.{SummaryMetrics, ErrorRateByModel, ProviderComparison}
use llmwatch.Db.Calls.{Row, Scan, returned, no_rows, failed, row_of, insert_event}
use llmwatch.Db.Calls.Columns.{ColumnTypes, stored_row}
use llmwatch.Db.Calls.Rows.{conflicts, IsTable, insert_event_twice}
use llmwatch.Db.Partition.{CreatePartition, PartitionStore}
use llmwatch.Db.Period.{duration_string}
use llmwatch.Db.Period.Hours.{IsExact}
use llmwatch.Db.Reports.{
  Aggregates, rows_since, group_by, same_model, same_provider, error_rate_of, summary_row,
  error_rate_row, comparison_row, count_errors, summary_of, get_summary, get_error_rates,
  get_provider_comparison,
}
use llmwatch.Db.Reports.Groups.{add_up}
use llmwatch.Db.Reports.Totals.{IsReported, reports_agree}
use llmwatch.Db.Postgres.{Postgres, calls_pool, statements, executor, postgres_store}
use llmwatch.Api.Response.{Body, respond}
use llmwatch.Api.Query.{handle_get_summary}
use llmwatch.Api.Query.Window.{summary_in, summary_window}
use llmwatch.Models.{LlmCallEvent}
use llmwatch.Kafka.Consumer.{Round, cancelled, Run, consume}
use llmwatch.Kafka.Consumer.Delivery.{decoded}
use llmwatch.Cmd.Consumer.{Worker, build_handler, run_hourly_maintenance}
use llmwatch.Cmd.Consumer.Maintained.{IsReady, run_hourly_maintenance-All}
use llmwatch.Cmd.Consumer.Stored.{IsDatabase, insert_all, first_deliveries, consume_stores}
use llmwatch.Tests.Fixtures.{fixed, nano, marks, marks-IsLawful, mem, sample, ids, message}

abbrev total : List ℕ → ℕ
total [] = 0
total (x ∷ xs) = x + total xs

abbrev mean : List ℤ → ℕ
mean xs = total (map (λ x. pos_part x * nano) xs) / length xs

abbrev numbers : Aggregates ℕ
numbers = record { sum = total; avg = mean; quotient = λ a b. a * nano / b; percentile_95 = mean }

-- The number of characters of an ASCII text.
abbrev at_most_chars : ℕ → Bytes → Option Bytes
at_most_chars n text = if leb (length text) n then some text else none

-- A text with a hyphen at its ninth place is a UUID here; costs are rounded down to 8 decimals.
abbrev pub types : ColumnTypes ℕ
types = record {
  uuid = λ s. if get_or s 8 0 == b'-' then some s else none;
  varchar = at_most_chars;
  text = λ s. some s;
  numeric = λ p d x. some (x / 10 * 10);
  timestamptz = λ t. some t;
}

abbrev insert_calls : Row ℕ → List (Row ℕ) → List (Row ℕ) × Scan
insert_calls r rows = elim (stored_row types r) [
  | none ↦ (rows, failed (Error.external (codes "invalid input syntax for type uuid")))
  | some t ↦ if conflicts rows t then (rows, no_rows) else (rows ++ t ∷ [], returned (length rows))
]

-- The rows in the order in which they came; every interval reaches to the beginning.
abbrev pub postgres : Postgres ℕ
postgres = record {
  State = List (Row ℕ);
  insert = insert_calls;
  select_recent = λ limit rows. (rows, ok (map (λ r. ok r) rows, ok tt));
  select_summary = λ text rows. (rows, ok (summary_row numbers (rows_since (pos 0) rows)));
  select_error_rates = λ text rows. (
    rows,
    ok (
      map (λ g. ok (error_rate_row numbers g)) (group_by same_model (rows_since (pos 0) rows)),
      ok tt,
    ),
  );
  select_comparison = λ text rows. (
    rows,
    ok (
      map (λ g. ok (comparison_row numbers g)) (group_by same_provider (rows_since (pos 0) rows)),
      ok tt,
    ),
  );
  exec_upsert = λ hm rows. (rows, ok tt);
  exec = λ q rows. (rows, ok tt);
  ping = λ rows. (rows, ok tt);
}

pub postgres-IsTable : IsTable types (calls_pool postgres) (λ rows. rows)
postgres-IsTable = record {
  added = λ r t rows fits new. (length rows, ground (arith, fits, new), ground (arith, fits, new));
  kept = λ r t rows fits there. (ground (arith, fits, there), ground (arith, fits, there));
  refused = λ r rows bad. (
    Error.external (codes "invalid input syntax for type uuid"),
    ground (arith, bad),
    ground (arith, bad),
  );
}

pub postgres-IsDatabase : IsDatabase types postgres (λ rows. rows)
postgres-IsDatabase = record { inserts = postgres-IsTable; partitioned = λ q s. refl }

abbrev pub first_id : Bytes
first_id = codes "6ba7b810-9dad-11d1-80b4-00c04fd430c8"

abbrev pub second_id : Bytes
second_id = codes "6ba7b811-9dad-11d1-80b4-00c04fd430c8"

-- An event whose cost has nine decimals.
abbrev call : LlmCallEvent ℕ
call = record sample { event_id = first_id; cost_usd = 1234567895 }

abbrev call_row : Row ℕ
call_row = record (row_of call) { cost_usd = 1234567890 }

call_fits : stored_row types (row_of call) ≡ some call_row
unfolding stored_row row_of bytes_beq
call_fits = refl

insert_event_twice_example :
    let s' = (insert_event (calls_pool postgres) call []).0 in
    let second = insert_event (calls_pool postgres) call s' in
    ((insert_event (calls_pool postgres) call []).1 ≡ ok true)
    × (s' ≡ call_row ∷ [])
    × (second.1 ≡ ok false)
    × (second.0 ≡ call_row ∷ [])
insert_event_twice_example =
    insert_event_twice types (calls_pool postgres) (λ rows. rows) postgres-IsTable call call_row []
      call_fits refl

head_ok :
    {A : Type 0} {a b : A} {xs ys : List (Result A)} → ok a ∷ xs ≡ ok b ∷ ys → (b ≡ a) × (xs ≡ ys)
head_ok h = (cc, cc)

-- What is read from a list that was written is the list.
read_back :
    {A B : Type 0} (f : A → B) (xs : List A) (ys : List B)
    → map (λ a. ok (f a)) xs ≡ map (λ b. ok b) ys
    → Permᴰ ys (map f xs)
read_back f [] [] h = Permᴰ.nil
read_back f [] (y ∷ ys) h = absurd (ground (arith, h))
read_back f (x ∷ xs) [] h = absurd (ground (arith, h))
read_back f (x ∷ xs) (y ∷ ys) h = let (e, d) = head_ok h in Permᴰ.cons e (read_back f xs ys d)

postgres-IsReported : IsReported numbers (statements postgres) (λ rows. rows) (λ text rows. pos 0)
postgres-IsReported = record {
  summary = λ text s h. sym (ok_injective h);
  rates = λ text s h.
      read_back (error_rate_row numbers) (group_by same_model (rows_since (pos 0) s)) _ (cc);
  comparison = λ text s h.
      read_back (comparison_row numbers) (group_by same_provider (rows_since (pos 0) s)) _ (cc);
}

-- A failed call, one of another provider, and one that is older than the interval.
abbrev stored : List (Row ℕ)
stored =
    row_of sample
    ∷ row_of (record sample { event_id = codes "e2"; status = codes "error" })
    ∷ row_of (record sample { event_id = codes "e3"; provider = codes "gemini" })
    ∷ record (row_of sample) { created_at = negsuc 0 }
    ∷ []

abbrev rates : List (ErrorRateByModel ℕ)
rates = map (error_rate_row numbers) (group_by same_model (rows_since (pos 0) stored))

abbrev providers : List (ProviderComparison ℕ)
providers = map (comparison_row numbers) (group_by same_provider (rows_since (pos 0) stored))

abbrev day : ℤ
day = pos 86400000000000

abbrev day_summary : SummaryMetrics ℕ
day_summary = record {
  total_calls = pos 3;
  total_cost_usd = 0;
  avg_latency_ms = 420 * nano;
  error_rate = nano / 3;
  period = duration_string day;
}

summary_answer : (get_summary (statements postgres) day stored).1 ≡ ok day_summary
unfolding get_summary summary_of summary_row rows_since count_errors error_rate_of bytes_beq row_of
summary_answer = refl

rates_answer : (get_error_rates (statements postgres) day stored).1 ≡ ok rates
unfolding get_error_rates error_rate_row group_by rows_since error_rate_of bytes_beq row_of
rates_answer = refl

providers_answer : (get_provider_comparison (statements postgres) day stored).1 ≡ ok providers
unfolding get_provider_comparison comparison_row group_by rows_since error_rate_of bytes_beq row_of
providers_answer = refl

reports_agree_example :
    let errors = add_up (λ (r : ErrorRateByModel ℕ). r.errors) rates in
    (add_up (λ (r : ErrorRateByModel ℕ). r.total) rates ≡ day_summary.total_calls)
    × (add_up (λ (r : ProviderComparison ℕ). r.total_calls) providers ≡ day_summary.total_calls)
    × (day_summary.error_rate
        ≡ error_rate_of numbers (pos_part errors) (pos_part day_summary.total_calls))
reports_agree_example =
    reports_agree numbers (statements postgres) (λ rows. rows) (λ text rows. pos 0)
      postgres-IsReported day stored {m = day_summary} {rates = rates} {providers = providers}
      summary_answer rates_answer providers_answer

fixed-IsExact : IsExact fixed
fixed-IsExact = record {
  zero_div = refl;
  add_zero = λ n h. omega arith;
  truncate_int = λ n h. ground arith;
}

abbrev pub rows_only : List (Row ℕ) → PartitionStore (executor postgres)
rows_only rows = record { pool = rows; partitions = λ n. false }

summary_window_example :
    handle_get_summary (postgres_store postgres) (format_nat 48) (rows_only stored) ≡ (
      rows_only stored,
      elim (summary_in
          (format_nat 48 ++ codes "h0m0s")
          (ok (summary_row numbers (rows_since (pos 0) stored)))) [
            | ok r ↦ respond 200 (Body.summary r)
            | err _ ↦ respond 500 (Body.error_message (codes "failed to fetch summary"))
          ],
    )
summary_window_example =
    summary_window fixed-IsExact postgres 48 (rows_only stored) (omega arith) (omega arith)

-- An event twice, one that is marked, one that cannot be read and one that is in the table.
abbrev rounds : List Round
rounds =
    record { message = message 0 (first_id); commit = ok tt }
    ∷ record { message = message 1 []; commit = ok tt }
    ∷ record { message = message 2 (codes "b"); commit = ok tt }
    ∷ record { message = message 3 (first_id); commit = ok tt }
    ∷ record { message = message 4 (codes "e1"); commit = ok tt }
    ∷ []

abbrev pub worker : Run ℕ (Worker (postgres_store postgres) marks)
worker = record {
  state = record {
    world = record { db = rows_only (row_of sample ∷ []); cache = codes "b" ∷ [] };
    counters = record { processed = []; duplicates = 0 };
    calls = 0;
  };
  committed = [];
  handled = [];
}

consume_stores_example :
    let r' =
      (consume ids
        (build_handler (postgres_store postgres) marks (λ n. codes "x") (λ n. pos 1))
        rounds
        cancelled
        worker).0 in
    r'.state.world.db.pool
    ≡ insert_all types (row_of sample ∷ []) (
        first_deliveries
          (λ n. codes "x")
          (λ n. pos 1)
          0
          (mem (codes "b" ∷ []))
          (decoded ids rounds))
consume_stores_example =
    consume_stores types postgres (λ rows. rows) postgres-IsDatabase marks mem marks-IsLawful
      (λ k c. (mem c k, refl)) (λ n. codes "x") (λ n. pos 1) ids rounds cancelled worker
      (refl, (refl, (refl, (refl, (refl, tt)))))

creates : (q : CreatePartition) (rows : List (Row ℕ)) → (postgres.exec q rows).1 ≡ ok tt
creates q rows = refl

-- Two ticks around midnight.
run_hourly_maintenance-All_example :
    All
      (IsReady postgres (
        run_hourly_maintenance
          (postgres_store postgres)
          (pos 1709249400000)
          (pos 1709253000000 ∷ [])
          (rows_only [])))
      (pos 1709249400000 ∷ pos 1709253000000 ∷ [])
run_hourly_maintenance-All_example =
    run_hourly_maintenance-All postgres creates (pos 1709249400000) (pos 1709253000000 ∷ [])
      (rows_only [])
