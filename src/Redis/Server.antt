-- ===== src/Redis/Server.antt =====
-- The commands of a Redis server that internal/redis/client.go sends through go-redis: a parameter of
-- the model, with what the documentation of the commands says as laws.
use llmwatch.Base.{
  true, ℕ, zero, suc, ◌-◌, Bytes, List, [], ◌∷◌, ◌++◌, length, drop, Bool, not, ◌||◌, ◌==◌,
  bytes_eq, if◌then◌else◌, ℤ, pos, Option, Result, ok, ◌≡◌, ◌≢◌, All,
}

-- What a pipeline is filled with. `ltrim_last k n` is LTRIM k -n -1.
pub data Command : Type 0 where
  incr : Bytes → Command
  expire : Bytes → ℤ → Command
  rpush : Bytes → Bytes → Command
  ltrim_last : Bytes → ℕ → Command

abbrev pub key : Command → Bytes
key (incr k) = k
key (expire k s) = k
key (rpush k v) = k
key (ltrim_last k n) = k

-- SETNX with a time to live in seconds, the execution of a pipeline, MGET, LRANGE 0 -1,
-- HINCRBYFLOAT, HGETALL, the iteration of SCAN and PING.
pub record Server (F : Type 0) : Type 1 where
  pub State : Type 0
  pub set_nx : Bytes → Bytes → ℤ → State → State × Result Bool
  pub exec : List Command → State → State × Result (Unit {0})
  pub mget : List Bytes → State → State × Result (List (Option Bytes))
  pub lrange : Bytes → State → State × Result (List Bytes)
  pub hincr_by_float : Bytes → Bytes → F → State → State × Result (Unit {0})
  pub hgetall : Bytes → State → State × Result (List (Bytes × Bytes))
  pub scan : Bytes → State → State × Result (List Bytes)
  pub ping : State → State × Result (Unit {0})

-- The last n values.
abbrev pub take_last : {A : Type 0} → ℕ → List A → List A
take_last n xs = drop (length xs - n) xs

-- What a command does to the list at the key `k`: a time to live that is not positive deletes the
-- key, and LTRIM k -0 -1 keeps the list from its first element.
abbrev pub on_list : Command → Bytes → List Bytes → List Bytes
on_list (rpush j v) k xs = if j == k then xs ++ v ∷ [] else xs
on_list (ltrim_last j zero) k xs = xs
on_list (ltrim_last j (suc n)) k xs = if j == k then take_last (suc n) xs else xs
on_list (expire j (pos (suc n))) k xs = xs
on_list (expire j _) k xs = if j == k then [] else xs
on_list (incr j) k xs = xs

abbrev pub on_lists : List Command → Bytes → List Bytes → List Bytes
on_lists [] k xs = xs
on_lists (c ∷ cs) k xs = on_lists cs k (on_list c k xs)

-- `exists s k` says that the key is there, `list_at s k` are the values of the list at it, empty
-- when there is none. SETNX sets a key that is not there, and says so, and removes none; a pipeline leaves the keys
-- alone that it does not name, and when it succeeds has run its commands in order.
pub record IsServer {F : Type 0} (R : Server F) (exists : R.State → Bytes → Bool)
    (list_at : R.State → Bytes → List Bytes) : Type 0 where
  pub set_nx_answer :
      (k v : Bytes) (ttl : ℤ) (s : R.State) {b : Bool}
      → (R.set_nx k v ttl s).1 ≡ ok b
      → b ≡ not (exists s k)
  pub set_nx_exists :
      (k v j : Bytes) (ttl : ℤ) (s : R.State) {b : Bool}
      → (R.set_nx k v ttl s).1 ≡ ok b
      → exists (R.set_nx k v ttl s).0 j ≡ ((j == k) || exists s j)
  pub set_nx_keeps :
      (k v j : Bytes) (ttl : ℤ) (s : R.State)
      → exists s j ≡ true
      → exists (R.set_nx k v ttl s).0 j ≡ true
  pub exec_exists :
      (cs : List Command) (j : Bytes) (s : R.State)
      → All (λ c. key c ≢ j) cs
      → exists (R.exec cs s).0 j ≡ exists s j
  pub hincr_by_float_exists :
      (k f j : Bytes) (x : F) (s : R.State)
      → k ≢ j
      → exists (R.hincr_by_float k f x s).0 j ≡ exists s j
  pub exec_list :
      (cs : List Command) (k : Bytes) (s : R.State)
      → (R.exec cs s).1 ≡ ok tt
      → list_at (R.exec cs s).0 k ≡ on_lists cs k (list_at s k)
