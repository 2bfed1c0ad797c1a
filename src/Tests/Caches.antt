-- ===== src/Tests/Caches.antt =====
-- The keys and the cache over a server at concrete data.
use native.Mathlib.Nat.{mul_assoc, mul_comm, mul-div_left, mul-le-mul_right}
use llmwatch.Base.{
  ℕ, ◌+◌, ◌+ℤ◌, ◌*◌, ◌/◌, ◌≤◌, ◌<◌, codes, [], ◌∷◌, length, pos, format_int, none, some, ◌≡◌, refl,
  sym, ap, subst, ◌∙◌, arith,
}
use llmwatch.Redis.Cache.{IsLawful}
use llmwatch.Redis.Server.{take_last}
use llmwatch.Redis.Keys.{dedup_key, latency_key, parse_latency_key, sanitize_model}
use llmwatch.Redis.Keys.RoundTrip.{parse_latency_key-latency_key}
use llmwatch.Redis.Percentile.{rank, percentile}
use llmwatch.Redis.Percentile.Bounds.{IsRounding, interpolated, rank_in_range}
use llmwatch.Redis.Client.{redis_cache, append_latency}
use llmwatch.Redis.Client.Dedup.{redis_cache-IsLawful}
use llmwatch.Redis.Client.Samples.{append_latency_keeps_last}
use llmwatch.Base.{List}
use llmwatch.Tests.Fixtures.{fixed, nano, mem, redis, redis-IsServer}

abbrev nothing : redis.State
nothing = ([], λ k. [])

parse_latency_key-latency_key_example :
    parse_latency_key (latency_key (codes "openai") (codes "ft:gpt-4o"))
    ≡ some (codes "openai", codes "ft:gpt-4o")
parse_latency_key-latency_key_example =
    parse_latency_key-latency_key (codes "openai") (codes "ft:gpt-4o") (omega arith)

redis_cache-IsLawful_example :
    IsLawful (redis_cache redis (λ s. none) (λ xs. xs)) (λ s id. mem s.0 (dedup_key id))
redis_cache-IsLawful_example =
    redis_cache-IsLawful redis (λ s. none) (λ xs. xs) (λ s. mem s.0) (λ s. s.1) redis-IsServer

append_latency_keeps_last_example :
    let s =
      (append_latency redis
        (λ s. none)
        (λ xs. xs)
        (codes "openai")
        (codes "gpt 4")
        (pos 420)
        ([], λ k. codes "7" ∷ [])).0 in
    (s.1 (latency_key (codes "openai") (sanitize_model (codes "gpt 4")))
      ≡ take_last 1000 (codes "7" ∷ format_int (pos 420) ∷ []))
    × (length (s.1 (latency_key (codes "openai") (sanitize_model (codes "gpt 4")))) ≤ 1000)
append_latency_keeps_last_example =
    append_latency_keeps_last redis (λ s. none) (λ xs. xs) (λ s. mem s.0) (λ s. s.1) redis-IsServer
      (codes "openai") (codes "gpt 4") (pos 420) ([], λ k. codes "7" ∷ [])
      (unfold append_latency in refl)

share_le : (a k : ℕ) → a ≤ nano → a * (k * nano) / nano ≤ k * nano
share_le a k h =
    subst (λ x. x ≤ k * nano)
      (sym (ap (λ x. x / nano) (sym (mul_assoc a k nano)) ∙ mul-div_left (a * k) (omega arith)))
      (subst (λ x. a * k ≤ x) (mul_comm nano k) (mul-le-mul_right k h))

fixed-IsRounding : IsRounding fixed (λ a b. a ≤ b)
unfolding ◌+ℤ◌
fixed-IsRounding = record {
  mul_low = λ a k few low high. omega arith;
  mul_high = λ a k few low high. share_le a k high;
  floor_ceil = λ x k few low high. (omega arith, omega arith, ground arith, omega arith);
}

abbrev samples : List ℕ
samples = 1 * nano ∷ 2 * nano ∷ 4 * nano ∷ []

rank_in_range_example :
    let r = rank 3 (95 * nano) in
    (lower : ℕ) × (upper : ℕ) × (pos (r / nano) ≡ pos lower)
    × (fixed.ceil r ≡ pos upper)
    × (lower ≤ upper)
    × (upper ≤ lower + 1)
    × (upper < 3)
    × (percentile samples (95 * nano) ≡ interpolated samples r lower upper 0)
rank_in_range_example =
    rank_in_range (λ a b. a ≤ b) fixed-IsRounding samples (95 * nano) 0 (omega arith) (omega arith)
      (omega arith) (omega arith)
