-- ===== src/Redis/Keys.antt =====
-- internal/redis/client.go: the keys, `sanitizeModel` and `parseLatencyKey`.
pub mod RoundTrip
use llmwatch.Base.{
  ℕ, zero, suc, ◌+◌, Bytes, codes, List, [], ◌∷◌, ◌++◌, map, length, drop, leb, ◌==◌, nat_eq, ◌||◌,
  if◌then◌else◌, ℤ, format_int, Option, none, some,
}

abbrev pub key_calls_per_minute : Bytes
key_calls_per_minute = codes "llmwatch:calls:per_minute"

abbrev pub key_cost_total : Bytes
key_cost_total = codes "llmwatch:cost:total"

abbrev pub latency_prefix : Bytes
latency_prefix = codes "llmwatch:latency:"

abbrev pub colon : ℕ
colon = b':'

-- fmt.Sprintf(KeyDedupFmt, eventID)
unfoldable pub dedup_key : Bytes → Bytes
dedup_key event_id = codes "llmwatch:dedup:" ++ event_id

-- fmt.Sprintf("%s:%d", KeyCallsPerMinute, bucket)
unfoldable pub calls_key : ℤ → Bytes
calls_key bucket = key_calls_per_minute ++ colon ∷ format_int bucket

-- One byte of sanitizeModel.
unfoldable pub sanitize_byte : ℕ → ℕ
sanitize_byte c = if (c == colon) || (c == b' ') then b'_' else c

unfoldable pub sanitize_model : Bytes → Bytes
unfolding sanitize_byte
sanitize_model = map sanitize_byte

-- fmt.Sprintf(KeyLatencyFmt, provider, model)
unfoldable pub latency_key : Bytes → Bytes → Bytes
latency_key provider model = latency_prefix ++ (provider ++ colon ∷ model)

-- The loop of parseLatencyKey over `rest`, with rest[:i].
unfoldable pub split_colon : Bytes → Bytes → Option (Bytes × Bytes)
split_colon before [] = none
split_colon before (c ∷ s) =
    let later = split_colon (before ++ c ∷ []) s in if c == colon then some (before, s) else later

-- The first 17 bytes are cut off unseen.
unfoldable pub parse_latency_key : Bytes → Option (Bytes × Bytes)
unfolding split_colon
parse_latency_key k =
    if leb (length k) (length latency_prefix)
    then none
    else split_colon [] (drop (length latency_prefix) k)
