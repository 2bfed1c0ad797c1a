-- ===== src/Redis/Client/Dedup.antt =====
-- `RedisCache` of internal/redis/client.go keeps what `Cache` promises of IsDuplicate.
use llmwatch.Base.{
  Bytes, codes, List, [], Bool, not, ◌==◌, bytes_eq, bytes_beq_iff, Option, Float64, Result, ok,
  ◌≡◌, ap, drop, pos, arith,
}
use llmwatch.Redis.Cache.{IsLawful}
use llmwatch.Redis.Server.{Server, IsServer}
use llmwatch.Redis.Keys.{dedup_key}
use llmwatch.Redis.Keys.RoundTrip.{dedup_key_apart}
use llmwatch.Redis.Client.{
  redis_cache, is_duplicate, incr_calls_per_minute, append_latency, incr_cost, in_context,
  dedup_ttl,
}

dedup_key_injective : (a b : Bytes) → dedup_key a ≡ dedup_key b → a ≡ b
unfolding dedup_key
dedup_key_injective a b e = ap (drop 15) e

dedup_key-== : (a b : Bytes) → (dedup_key a == dedup_key b) ≡ (a == b)
dedup_key-== a b = ground (
  arith,
  bytes_beq_iff a b,
  bytes_beq_iff (dedup_key a) (dedup_key b),
  dedup_key_injective a b,
  (λ (e : a ≡ b). ap dedup_key e),
)

-- What an answer of the check says of SETNX's.
set_of_answer :
    (text : Bytes) (r : Result Bool) {b : Bool} → in_context text not r ≡ ok b → r ≡ ok (not b)
set_of_answer text r h = ground (arith, h)

module _ {F : Type 0} ⦃fl : Float64 F⦄ (R : Server F) (parse_float : Bytes → Option F)
    (sort : List F → List F) (exists : R.State → Bytes → Bool)
    (list_at : R.State → Bytes → List Bytes) (laws : IsServer R exists list_at) where
  -- Over a server that does what the commands' documentation says, the cache over Redis keeps
  -- the promise of IsDuplicate: an id is marked exactly when its key exists, an answering check
  -- tells whether the id was marked and marks it, and nothing else the cache does for an event
  -- marks or forgets an id.
  pub redis_cache-IsLawful :
      IsLawful (redis_cache R parse_float sort) (λ s id. exists s (dedup_key id))
  unfolding is_duplicate incr_calls_per_minute append_latency incr_cost
  redis_cache-IsLawful = record {
    answer = λ k s {b} h.
        ground
          (arith, laws.set_nx_answer (dedup_key k) (codes "1") dedup_ttl s (set_of_answer _ _ h));
    marked = λ k j s {b} h. ground (
      arith,
      laws.set_nx_exists (dedup_key k) (codes "1") (dedup_key j) dedup_ttl s (set_of_answer _ _ h),
      dedup_key-== j k,
    );
    kept = λ k j s h. laws.set_nx_keeps (dedup_key k) (codes "1") (dedup_key j) dedup_ttl s h;
    seen-incr_calls_per_minute = λ t k s.
        laws.exec_exists _ _ s ((dedup_key_apart k [] [] _).0, ((dedup_key_apart k [] [] _).0, tt));
    seen-append_latency = λ p m l k s. laws.exec_exists _ _ s (
      (dedup_key_apart k p _ (pos 0)).1,
      ((dedup_key_apart k p _ (pos 0)).1, ((dedup_key_apart k p _ (pos 0)).1, tt)),
    );
    seen-incr_cost =
        λ p c k s. laws.hincr_by_float_exists _ _ _ c s (dedup_key_apart k [] [] (pos 0)).2;
  }
