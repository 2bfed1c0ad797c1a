-- ===== src/Redis/Keys/RoundTrip.antt =====
-- The keys of internal/redis/client.go are told apart and read back.
use llmwatch.Base.{
  Bytes, [], ◌∷◌, ◌++◌, append_assoc, append-nil, length-append, get_or, nat_eq, nat_beq_iff, ℤ,
  some, ◌≡◌, ◌≢◌, ap, All, arith,
}
use llmwatch.Redis.Keys.{
  key_cost_total, colon, dedup_key, calls_key, latency_key, split_colon, parse_latency_key,
}

abbrev pub LacksColon : Bytes → Type 0
LacksColon = All (λ c. c ≢ colon)

split_colon_at :
    (before p rest : Bytes)
    → LacksColon p
    → split_colon before (p ++ colon ∷ rest) ≡ some (before ++ p, rest)
unfolding split_colon
split_colon_at before [] rest h = rw append-nil
split_colon_at before (c ∷ p) rest (h, hs) = ground (
  arith,
  nat_beq_iff c colon,
  split_colon_at (before ++ c ∷ []) p rest hs,
  append_assoc before (c ∷ []) p,
)

-- A latency key is read back as its provider and its model, if the provider holds no colon; the
-- model may hold any.
pub parse_latency_key-latency_key :
    (provider model : Bytes)
    → LacksColon provider
    → parse_latency_key (latency_key provider model) ≡ some (provider, model)
unfolding parse_latency_key latency_key
parse_latency_key-latency_key provider model h =
    ground (arith, split_colon_at [] provider model h, length-append provider (colon ∷ model))

-- No key of a check for duplicates is a key of a counter, a list or the costs.
pub dedup_key_apart :
    (id provider model : Bytes) (bucket : ℤ)
    → (calls_key bucket ≢ dedup_key id)
      × (latency_key provider model ≢ dedup_key id)
      × (key_cost_total ≢ dedup_key id)
unfolding dedup_key calls_key latency_key
dedup_key_apart id provider model bucket = (
  λ e. omega (arith, ap (λ (s : Bytes). get_or s 9 0) e),
  λ e. omega (arith, ap (λ (s : Bytes). get_or s 9 0) e),
  λ e. omega (arith, ap (λ (s : Bytes). get_or s 9 0) e),
)
