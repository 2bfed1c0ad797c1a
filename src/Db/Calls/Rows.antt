-- ===== src/Db/Calls/Rows.antt =====
-- What `InsertEvent` of internal/db/postgres.go stores, and what `GetRecentCalls` reads.
use llmwatch.Base.{
  ℕ, List, [], ◌∷◌, ◌++◌, append_assoc, append-nil, map, Bool, true, false, ℤ, ◌==◌, ◌&&◌, ◌||◌,
  bytes_eq, int_eq, bytes_beq_iff, int_beq_iff, if◌then◌else◌, ok, ◌≡◌, sym, ap, ◌∙◌, arith, inl,
  inr, none, some, Error, Option-cases, Bool-cases,
}
use llmwatch.Models.{LlmCallEvent}
use llmwatch.Db.Calls.Columns.{ColumnTypes, stored_row}
use llmwatch.Db.Calls.{
  Row, returned, no_rows, failed, Pool, row_of, event_of, inserted, scan_rows, insert_event,
  get_recent_calls,
}

module _ {F : Type 0} where
  -- The key of the unique index.
  abbrev pub same_key : Row F → Row F → Bool
  same_key a b = (a.event_id == b.event_id) && (a.created_at == b.created_at)

  abbrev pub conflicts : List (Row F) → Row F → Bool
  conflicts [] r = false
  conflicts (a ∷ rows) r = same_key a r || conflicts rows r

  conflicts-append : (rows : List (Row F)) (r : Row F) → conflicts (rows ++ r ∷ []) r ≡ true
  conflicts-append [] r =
      ground (arith, bytes_beq_iff r.event_id r.event_id, int_beq_iff r.created_at r.created_at)
  conflicts-append (a ∷ rows) r = ground (arith, conflicts-append rows r)

  -- An event that is stored and read back is the event: an empty error text is stored as NULL and
  -- read as empty.
  pub event_of-row_of : (e : LlmCallEvent F) → event_of (row_of e) ≡ e
  unfolding event_of row_of
  event_of-row_of e = ground (arith, bytes_beq_iff e.error_message [])

  scan_rows-append :
      (es : List (LlmCallEvent F)) (found : List (LlmCallEvent F))
      → scan_rows (map (λ e. ok (row_of e)) es) (ok tt) found ≡ ok (found ++ es)
  unfolding scan_rows
  scan_rows-append [] found = ap ok (sym (append-nil found))
  scan_rows-append (e ∷ es) found =
      scan_rows-append es (found ++ event_of (row_of e) ∷ [])
      ∙ ap (λ x. ok ((found ++ x ∷ []) ++ es)) (event_of-row_of e)
      ∙ ap ok (append_assoc found (e ∷ []) es)

-- The table with a row more, in the form in which it is stored: unless a column refuses its value or
-- there is a row with its key.
abbrev pub insert_row : {F : Type 0} → ColumnTypes F → List (Row F) → Row F → List (Row F)
insert_row T rows r = elim (stored_row T r) [
  | none ↦ rows
  | some t ↦ if conflicts rows t then rows else rows ++ t ∷ []
]

-- What the statement `INSERT … ON CONFLICT (event_id, created_at) DO NOTHING RETURNING id` does to the
-- rows, on a database that is reached: a row with a value that a column refuses is an error and
-- changes nothing; else its id is returned when it has been added, and no row when there is one with its
-- key.
pub record IsTable {F : Type 0} (T : ColumnTypes F) (P : Pool F) (rows : P.State → List (Row F))
    : Type 0 where
  pub added :
      (r t : Row F) (s : P.State)
      → stored_row T r ≡ some t
      → conflicts (rows s) t ≡ false
      → (id : ℕ) × ((P.insert r s).1 ≡ returned id) × (rows (P.insert r s).0 ≡ rows s ++ t ∷ [])
  pub kept :
      (r t : Row F) (s : P.State)
      → stored_row T r ≡ some t
      → conflicts (rows s) t ≡ true
      → ((P.insert r s).1 ≡ no_rows) × (rows (P.insert r s).0 ≡ rows s)
  pub refused :
      (r : Row F) (s : P.State)
      → stored_row T r ≡ none
      → (x : Error) × ((P.insert r s).1 ≡ failed x) × (rows (P.insert r s).0 ≡ rows s)

module _ {F : Type 0} (T : ColumnTypes F) (P : Pool F) (rows : P.State → List (Row F))
    (laws : IsTable T P rows) where
  -- InsertEvent leaves the table with the event's row, or as it was when the row is refused or there.
  pub insert_event_rows :
      (e : LlmCallEvent F) (s : P.State)
      → rows (insert_event P e s).0 ≡ insert_row T (rows s) (row_of e)
  unfolding insert_event
  insert_event_rows e s = elim (Option-cases (stored_row T (row_of e))) [
    | inl none_ ↦ ground (arith, none_, (laws.refused (row_of e) s none_).1)
    | inr (t, fits) ↦ elim (Bool-cases (conflicts (rows s) t)) [
      | inl there ↦ ground (arith, fits, there, laws.kept (row_of e) t s fits there)
      | inr new ↦ ground (arith, fits, new, (laws.added (row_of e) t s fits new).1)
    ]
  ]

  -- On a database that is reached, when the columns store an event as the row t and the table
  -- has no row with the key of t: inserting the event answers true and adds t, and inserting it
  -- again answers false, not an error, and leaves the table as it is.
  pub insert_event_twice :
      (e : LlmCallEvent F) (t : Row F) (s : P.State)
      → stored_row T (row_of e) ≡ some t
      → conflicts (rows s) t ≡ false
      → let (s', first) = insert_event P e s in
        let (s'', second) = insert_event P e s' in
        (first ≡ ok true)
        × (rows s' ≡ rows s ++ t ∷ [])
        × (second ≡ ok false)
        × (rows s'' ≡ rows s ++ t ∷ [])
  unfolding insert_event inserted
  insert_event_twice e t s fits new =
      let (id, answered, stored) = laws.added (row_of e) t s fits new in
      let s' = (P.insert (row_of e) s).0 in
      let there = ap (λ rs. conflicts rs t) stored ∙ conflicts-append (rows s) t in
      let (skipped, same) = laws.kept (row_of e) t s' fits there in
      (ap inserted answered, stored, ap inserted skipped, same ∙ stored)

module _ {F : Type 0} (P : Pool F) where
  -- When the select answers with the rows of some events and no error, GetRecentCalls returns
  -- these events in order.
  pub get_recent_calls-row_of :
      (limit : ℤ) (s : P.State) (es : List (LlmCallEvent F))
      → (P.select_recent limit s).1 ≡ ok (map (λ e. ok (row_of e)) es, ok tt)
      → (get_recent_calls P limit s).1 ≡ ok es
  unfolding get_recent_calls
  get_recent_calls-row_of limit s es h = ground (arith, scan_rows-append es [])
