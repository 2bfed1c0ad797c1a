-- ===== src/Cmd/Lifecycle.antt =====
-- The start and the end of a command: what it opens and closes, and the deferred calls of Go.
pub mod Balance
use llmwatch.Base.{Bytes, List, [], ◌∷◌, ◌++◌, ℤ, Option, Error, Result, ok, err, wrapped}

-- What is open until it is closed: the notification of signals, the pool of PostgreSQL, the
-- migrator, the client of Redis, and the writer and the reader of Kafka.
pub data Resource : Type 0 where
  signals pool migrator redis_client writer reader : Resource

-- What a command does. The effects on the database and the topic are modelled elsewhere.
pub data Action : Type 0 where
  acquire : Resource → Action
  release : Resource → Action
  migrate_up : Action
  partition : ℤ → Action
  start_maintenance : Action
  consume_events : Action
  listen : Action
  shut_down : Action

-- The actions of a call in order, and its result.
abbrev pub Trace : Type 0 → Type 0
Trace A = List Action × Result A

infixl 5 ◌>>=◌ ◌>>◌
abbrev pub ◌>>=◌ : {A B : Type 0} → Trace A → (A → Trace B) → Trace B
◌>>=◌ (xs, ok a) f = (xs ++ (f a).0, (f a).1)
◌>>=◌ (xs, err e) f = (xs, err e)

abbrev pub ◌>>◌ : {A B : Type 0} → Trace A → Trace B → Trace B
m >> k = m >>= λ _. k

abbrev pub pure : {A : Type 0} → A → Trace A
pure a = ([], ok a)

abbrev pub raise : {A : Type 0} → Error → Trace A
raise e = ([], err e)

abbrev pub act : Action → Trace (Unit {0})
act a = (a ∷ [], ok tt)

-- `if err != nil { return fmt.Errorf("…: %w", err) }`
abbrev pub check : {A : Type 0} → Bytes → Result A → Trace A
check text (ok a) = pure a
check text (err e) = raise (wrapped text e)

-- A call of the repository, its error with a context.
abbrev pub within : {A : Type 0} → Bytes → Trace A → Trace A
within text (xs, ok a) = (xs, ok a)
within text (xs, err e) = (xs, err (wrapped text e))

-- The rest of a function behind `defer x.Close()`.
abbrev pub deferring : {A : Type 0} → Resource → Trace A → Trace A
deferring r (xs, a) = (xs ++ release r ∷ [], a)
