-- ===== src/Db/Calls/Columns.antt =====
-- The columns of llm_calls in internal/db/migrations/001_create_llm_calls.up.sql: the form in which a
-- row is stored.
use llmwatch.Base.{
  ℕ, ◌+◌, ◌^◌, Bytes, ltb, ◌&&◌, if◌then◌else◌, ℤ, pos_part, neg_part, Option, none, some,
}
use llmwatch.Db.Calls.{Row}

infixl 5 ◌>>=◌
abbrev ◌>>=◌ : {A B : Type 0} → Option A → (A → Option B) → Option B
◌>>=◌ none f = none
◌>>=◌ (some a) f = f a

-- What PostgreSQL makes of a value that is assigned to a column of one of its types, `none` when it
-- refuses it: UUID, VARCHAR(n), TEXT, NUMERIC(p, s) and TIMESTAMPTZ.
pub record ColumnTypes (F : Type 0) : Type 0 where
  pub uuid : Bytes → Option Bytes
  pub varchar : ℕ → Bytes → Option Bytes
  pub text : Bytes → Option Bytes
  pub numeric : ℕ → ℕ → F → Option F
  pub timestamptz : ℤ → Option ℤ

-- INTEGER has 32 bits and BIGINT 64.
abbrev pub integer_column : ℕ → ℤ → Option ℤ
integer_column bits n =
    if ltb (pos_part n) (2 ^ bits) && ltb (neg_part n) (2 ^ bits + 1) then some n else none

abbrev pub nullable : (Bytes → Option Bytes) → Option Bytes → Option (Option Bytes)
nullable column none = some none
nullable column (some text) = elim (column text) [ none ↦ none | some t ↦ some (some t) ]

module _ {F : Type 0} (T : ColumnTypes F) where
  -- The row as the table has it, `none` when a column refuses its value.
  unfoldable pub stored_row : Row F → Option (Row F)
  stored_row r = do
    event_id ← T.uuid r.event_id
    provider ← T.varchar 32 r.provider
    model ← T.varchar 128 r.model
    latency_ms ← integer_column 63 r.latency_ms
    input_tokens ← integer_column 31 r.input_tokens
    output_tokens ← integer_column 31 r.output_tokens
    cost_usd ← T.numeric 18 8 r.cost_usd
    status ← T.varchar 16 r.status
    error_message ← nullable T.text r.error_message
    event_ts ← T.timestamptz r.event_ts
    created_at ← T.timestamptz r.created_at
    some (record {
      event_id = event_id;
      provider = provider;
      model = model;
      latency_ms = latency_ms;
      input_tokens = input_tokens;
      output_tokens = output_tokens;
      cost_usd = cost_usd;
      status = status;
      error_message = error_message;
      event_ts = event_ts;
      created_at = created_at;
    })
