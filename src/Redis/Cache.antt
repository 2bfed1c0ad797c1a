-- ===== src/Redis/Cache.antt =====
-- internal/redis/client.go: the interface `Cache`, and what its comments promise of IsDuplicate.
use llmwatch.Base.{Bytes, Bool, true, List, ◌≡◌, ◌||◌, ◌==◌, bytes_eq, ℤ, Result, ok}
use llmwatch.Models.Views.{CallsPerMinutePoint, LatencyPercentiles, CostByProvider}

-- A method takes the state of the server and returns it changed, with the method's result. A time
-- is a number of milliseconds of Unix time. The methods that read take the time of the call.
pub record Cache (F : Type 0) : Type 1 where
  pub State : Type 0
  pub is_duplicate : Bytes → State → State × Result Bool
  pub incr_calls_per_minute : ℤ → State → State × Result (Unit {0})
  pub get_calls_per_minute : ℤ → ℤ → State → State × Result (List CallsPerMinutePoint)
  pub append_latency : Bytes → Bytes → ℤ → State → State × Result (Unit {0})
  pub get_latency_percentiles : State → State × Result (List (LatencyPercentiles F))
  pub incr_cost : Bytes → F → State → State × Result (Unit {0})
  pub get_cost_by_provider : State → State × Result (List (CostByProvider F))
  pub health_check : State → State × Result (Unit {0})

-- `seen` tells which ids are marked. A check that answers has answered for the id and marked it; a
-- check that fails may have marked it or not; no check forgets an id; counting marks nothing and forgets nothing.
pub record IsLawful {F : Type 0} (C : Cache F) (seen : C.State → Bytes → Bool) : Type 0 where
  pub answer : (k : Bytes) (s : C.State) {b : Bool} → (C.is_duplicate k s).1 ≡ ok b → b ≡ seen s k
  pub marked :
      (k j : Bytes) (s : C.State) {b : Bool}
      → (C.is_duplicate k s).1 ≡ ok b
      → seen (C.is_duplicate k s).0 j ≡ ((j == k) || seen s j)
  pub kept : (k j : Bytes) (s : C.State) → seen s j ≡ true → seen (C.is_duplicate k s).0 j ≡ true
  pub seen-incr_calls_per_minute :
      (t : ℤ) (k : Bytes) (s : C.State) → seen (C.incr_calls_per_minute t s).0 k ≡ seen s k
  pub seen-append_latency :
      (p m : Bytes) (l : ℤ) (k : Bytes) (s : C.State)
      → seen (C.append_latency p m l s).0 k ≡ seen s k
  pub seen-incr_cost :
      (p : Bytes) (c : F) (k : Bytes) (s : C.State) → seen (C.incr_cost p c s).0 k ≡ seen s k
