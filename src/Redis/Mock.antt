-- ===== src/Redis/Mock.antt =====
-- internal/redis/client.go: `MockCache`, the cache in memory.
use llmwatch.Base.{
  Bytes, List, [], ◌∷◌, ◌++◌, map, Bool, true, false, ◌==◌, ◌||◌, bytes_eq, bytes_beq_iff, int_eq,
  if◌then◌else◌, ℤ, pos, add64, Float64, Result, ok, ◌≡◌, refl, arith,
}
use llmwatch.Models.Views.{CostByProvider}
use llmwatch.Redis.Cache.{Cache, IsLawful}
use llmwatch.Redis.Keys.{colon}
use llmwatch.Redis.Client.{minute_bucket}

-- A map that is only read at a key is a function, with the zero value where a key is missing. The
-- costs are read as a whole too: their keys are kept in the order in which they came, where Go
-- fixes no order.
pub record MockCache (F : Type 0) : Type 0 where
  pub duplicates : Bytes → Bool
  pub latency_data : Bytes → List F
  pub cost_data : List (Bytes × F)
  pub call_counts : ℤ → ℤ

module _ {F : Type 0} ⦃fl : Float64 F⦄ where
  unfoldable pub new_mock_cache : MockCache F
  new_mock_cache = record {
    duplicates = λ k. false;
    latency_data = λ k. [];
    cost_data = [];
    call_counts = λ t. pos 0;
  }

  unfoldable pub mock_is_duplicate : Bytes → MockCache F → MockCache F × Result Bool
  mock_is_duplicate event_id m = elim (m.duplicates event_id) [
    | true ↦ (m, ok true)
    | false ↦ (record m { duplicates = λ k. k == event_id || m.duplicates k }, ok false)
  ]

  unfoldable pub mock_incr_calls_per_minute : ℤ → MockCache F → MockCache F × Result (Unit {0})
  mock_incr_calls_per_minute ts m =
      let bucket = minute_bucket ts in
      (
        record m {
          call_counts =
              λ t. if t == bucket then add64 (m.call_counts t) (pos 1) else m.call_counts t;
        },
        ok tt,
      )

  unfoldable pub mock_append_latency :
      Bytes → Bytes → ℤ → MockCache F → MockCache F × Result (Unit {0})
  mock_append_latency provider model latency_ms m =
      let key = provider ++ colon ∷ model in
      (
        record m {
          latency_data = λ k.
              if k == key then m.latency_data k ++ fl.of_int latency_ms ∷ [] else m.latency_data k;
        },
        ok tt,
      )

  -- `m.CostData[p] += costUSD`, from zero for a new key.
  unfoldable pub add_cost : Bytes → F → List (Bytes × F) → List (Bytes × F)
  add_cost p cost [] = (p, fl.fadd (fl.decimal 0 0) cost) ∷ []
  add_cost p cost ((q, old) ∷ costs) =
      let rest = add_cost p cost costs in
      if q == p then (q, fl.fadd old cost) ∷ costs else (q, old) ∷ rest

  unfoldable pub mock_incr_cost : Bytes → F → MockCache F → MockCache F × Result (Unit {0})
  unfolding add_cost
  mock_incr_cost provider cost m =
      (record m { cost_data = add_cost provider cost m.cost_data }, ok tt)

  abbrev entry : Bytes × F → CostByProvider F
  entry (p, cost) = record { provider = p; total_usd = cost }

  unfoldable pub mock_get_cost_by_provider :
      MockCache F → MockCache F × Result (List (CostByProvider F))
  mock_get_cost_by_provider m = (m, ok (map entry m.cost_data))

  abbrev pub mock_cache : Cache F
  mock_cache = record {
    State = MockCache F;
    is_duplicate = mock_is_duplicate;
    incr_calls_per_minute = mock_incr_calls_per_minute;
    get_calls_per_minute = λ now minutes m. (m, ok []);
    append_latency = mock_append_latency;
    get_latency_percentiles = λ m. (m, ok []);
    incr_cost = mock_incr_cost;
    get_cost_by_provider = mock_get_cost_by_provider;
    health_check = λ m. (m, ok tt);
  }

  mock_answer :
      (k : Bytes) (m : MockCache F) {b : Bool}
      → (mock_is_duplicate k m).1 ≡ ok b
      → b ≡ m.duplicates k
  unfolding mock_is_duplicate
  mock_answer k m h = ground arith

  mock_marked :
      (k j : Bytes) (m : MockCache F)
      → (mock_is_duplicate k m).0.duplicates j ≡ (j == k || m.duplicates j)
  unfolding mock_is_duplicate
  mock_marked k j m = ground (arith, bytes_beq_iff j k)

  mock_kept :
      (k j : Bytes) (m : MockCache F)
      → m.duplicates j ≡ true
      → (mock_is_duplicate k m).0.duplicates j ≡ true
  unfolding mock_is_duplicate
  mock_kept k j m h = ground (arith, bytes_beq_iff j k)

  -- The mock cache promises what the cache over Redis promises of IsDuplicate: an id is marked
  -- exactly when it is in the map of duplicates.
  pub mock_cache-IsLawful : IsLawful mock_cache (λ m. m.duplicates)
  unfolding mock_incr_calls_per_minute mock_append_latency mock_incr_cost
  mock_cache-IsLawful = record {
    answer = λ k m h. mock_answer k m h;
    marked = λ k j m h. mock_marked k j m;
    kept = λ k j m h. mock_kept k j m h;
    seen-incr_calls_per_minute = λ t k m. refl;
    seen-append_latency = λ p q l k m. refl;
    seen-incr_cost = λ p c k m. refl;
  }
