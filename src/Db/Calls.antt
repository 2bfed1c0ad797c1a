-- ===== src/Db/Calls.antt =====
-- internal/db/postgres.go: `InsertEvent`, `GetRecentCalls` and `nullableString`, over the rows of the
-- table llm_calls.
pub mod Columns
pub mod Rows
use llmwatch.Base.{
  ℕ, Bytes, codes, List, [], ◌∷◌, ◌++◌, Bool, true, false, ℤ, ◌==◌, bytes_eq, if◌then◌else◌, Option,
  none, some, Error, Result, ok, err, wrapped,
}
use llmwatch.Models.{LlmCallEvent}

-- The columns that InsertEvent fills and GetRecentCalls reads; `created_at` has the value of
-- `event_ts`, and NULL is `none`. Times are milliseconds of Unix time.
pub record Row (F : Type 0) : Type 0 where
  pub event_id : Bytes
  pub provider : Bytes
  pub model : Bytes
  pub latency_ms : ℤ
  pub input_tokens : ℤ
  pub output_tokens : ℤ
  pub cost_usd : F
  pub status : Bytes
  pub error_message : Option Bytes
  pub event_ts : ℤ
  pub created_at : ℤ

-- What Scan makes of the answer to the insert: the new id, pgx.ErrNoRows, or another error.
pub data Scan : Type 0 where
  returned : ℕ → Scan
  no_rows : Scan
  failed : Error → Scan

-- The connection pool with the two statements: the insert of a row, and the select of the most
-- recent rows. Its rows come one by one, each read or with the error of its Scan, and at the end
-- rows.Err().
pub record Pool (F : Type 0) : Type 1 where
  pub State : Type 0
  pub insert : Row F → State → State × Scan
  pub select_recent : ℤ → State → State × Result (List (Result (Row F)) × Result (Unit {0}))

abbrev pub nullable_string : Bytes → Option Bytes
nullable_string s = if s == [] then none else some s

-- COALESCE(error_message, '')
abbrev pub coalesce : Option Bytes → Bytes
coalesce none = []
coalesce (some s) = s

-- The answer of InsertEvent to what Scan has made.
unfoldable pub inserted : Scan → Result Bool
inserted no_rows = ok false
inserted (failed x) = err (wrapped (codes "db: insert event") x)
inserted (returned id) = ok true

module _ {F : Type 0} where
  -- The arguments of the insert.
  unfoldable pub row_of : LlmCallEvent F → Row F
  row_of e = record {
    event_id = e.event_id;
    provider = e.provider;
    model = e.model;
    latency_ms = e.latency_ms;
    input_tokens = e.input_tokens;
    output_tokens = e.output_tokens;
    cost_usd = e.cost_usd;
    status = e.status;
    error_message = nullable_string e.error_message;
    event_ts = e.timestamp;
    created_at = e.timestamp;
  }

  -- What the loop of GetRecentCalls makes of a row.
  unfoldable pub event_of : Row F → LlmCallEvent F
  event_of r = record {
    event_id = r.event_id;
    provider = r.provider;
    model = r.model;
    latency_ms = r.latency_ms;
    input_tokens = r.input_tokens;
    output_tokens = r.output_tokens;
    cost_usd = r.cost_usd;
    status = r.status;
    error_message = coalesce r.error_message;
    timestamp = r.event_ts;
  }

  -- The loop over the rows, with the events so far; the first row that cannot be read ends it. The
  -- source returns the events beside the error of rows.Err(), which its callers drop.
  unfoldable pub scan_rows :
      List (Result (Row F))
      → Result (Unit {0})
      → List (LlmCallEvent F)
      → Result (List (LlmCallEvent F))
  unfolding event_of
  scan_rows [] (ok _) events = ok events
  scan_rows [] (err x) events = err x
  scan_rows (ok r ∷ rows) end events = scan_rows rows end (events ++ event_of r ∷ [])
  scan_rows (err x ∷ rows) end events = err (wrapped (codes "db: scan call row") x)

  module _ (P : Pool F) where
    unfoldable pub insert_event : LlmCallEvent F → P.State → P.State × Result Bool
    unfolding row_of inserted
    insert_event e s = let (s', scan) = P.insert (row_of e) s in (s', inserted scan)

    unfoldable pub get_recent_calls : ℤ → P.State → P.State × Result (List (LlmCallEvent F))
    unfolding scan_rows
    get_recent_calls limit s =
        let (s', answer) = P.select_recent limit s in
        (
          s',
          elim answer [
            | err x ↦ err (wrapped (codes "db: get recent calls") x)
            | ok (rows, end) ↦ scan_rows rows end []
          ],
        )
