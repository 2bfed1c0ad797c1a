-- ===== src/Redis/Client.antt =====
-- internal/redis/client.go: `RedisCache`, over any server.
pub mod Dedup
pub mod Samples
pub mod Window
use mathlib.Core.List.{filter_map}
use llmwatch.Base.{
  ℕ, suc, zero, ◌+◌, ◌*◌, Bytes, codes, List, [], ◌∷◌, ◌++◌, map, length, Bool, not, ◌==◌, bytes_eq,
  if◌then◌else◌, ℤ, pos, ◌+ℤ◌, ◌-ℤ◌, div_floor, scale, format_int, wrap64, sub_ℕ, negsuc, is_digit,
  true, false, ltb, nat_eq, ◌-◌, ◌^◌, Option, none, some, Float64, Error, Result, ok, err, wrapped,
}
use llmwatch.Models.Views.{CallsPerMinutePoint, LatencyPercentiles, CostByProvider}
use llmwatch.Redis.Cache.{Cache}
use llmwatch.Redis.Server.{Server, incr, expire, rpush, ltrim_last}
use llmwatch.Redis.Keys.{
  key_calls_per_minute, key_cost_total, dedup_key, calls_key, latency_key, sanitize_model,
  parse_latency_key,
}
use llmwatch.Redis.Percentile.{percentile}

abbrev pub dedup_ttl : ℤ
dedup_ttl = pos (24 * 60 * 60)

abbrev pub max_latency_samples : ℕ
max_latency_samples = 1000

abbrev pub calls_window_minutes : ℕ
calls_window_minutes = 60

-- ts.Truncate(time.Minute).Unix() of a time in milliseconds.
unfoldable pub minute_bucket : ℤ → ℤ
minute_bucket ts = scale (div_floor ts 60000) 60

-- The digits of strconv.ParseUint(s, 10, 64) behind `n`: `none` at a byte that is no digit, and the
-- greatest uint64 as soon as the value is above it.
unfoldable pub parse_digits : Bytes → ℕ → Option ℕ
parse_digits [] n = some n
parse_digits (c ∷ s) n =
    let next = n * 10 + (c - b'0') in
    let rest = parse_digits s next in
    if is_digit c then if ltb next (2 ^ 64) then rest else some (2 ^ 64 - 1) else none

-- The value that strconv.ParseInt(s, 10, 64) returns beside its error: 0 for a text that is no
-- number, and the nearest int64 for a number that is none.
abbrev pub signed_value : Bool → Option ℕ → ℤ
signed_value negative none = pos 0
signed_value false (some n) = if ltb n (2 ^ 63) then pos n else pos (2 ^ 63 - 1)
signed_value true (some n) = if ltb n (2 ^ 63) then sub_ℕ 0 n else negsuc (2 ^ 63 - 1)

abbrev pub digits_value : Bytes → Option ℕ
digits_value [] = none
digits_value (c ∷ s) = parse_digits (c ∷ s) 0

unfoldable pub parse_int : Bytes → ℤ
unfolding parse_digits
parse_int [] = pos 0
parse_int (c ∷ s) =
    if c == b'-'
    then signed_value true (digits_value s)
    else if c == b'+'
    then signed_value false (digits_value s)
    else signed_value false (digits_value (c ∷ s))

-- The count of a counter's value, ParseInt's error dropped.
abbrev pub count_of : Option Bytes → ℤ
count_of none = pos 0
count_of (some text) = parse_int text

-- time.Second and time.Minute.
abbrev pub second_ns : ℕ
second_ns = 1000000000

abbrev pub minute_ns : ℕ
minute_ns = 60 * second_ns

-- time.Duration(minutes) * time.Minute in int64.
unfoldable pub minutes_duration : ℤ → ℤ
unfolding wrap64 scale
minutes_duration minutes = wrap64 (scale minutes minute_ns)

-- The times of the minutes `i`, `i + 1`, … of a window that starts at `from`, `n` of them, in
-- nanoseconds of Unix time.
unfoldable pub window : ℤ → ℕ → ℕ → List ℤ
window from i zero = []
window from i (suc n) = (from +ℤ minutes_duration (pos i)) ∷ window from (suc i) n

-- The key of a time: t.Unix() is in whole seconds.
unfoldable pub key_at : ℤ → Bytes
unfolding calls_key
key_at t = calls_key (div_floor t second_ns)

-- now.Add(-time.Duration(minutes) * time.Minute), of the current minute.
unfoldable pub window_start : ℤ → ℤ → ℤ
unfolding minutes_duration minute_bucket
window_start now minutes =
    scale (minute_bucket now) second_ns +ℤ minutes_duration (pos 0 -ℤ minutes)

abbrev natural : ℤ → ℕ
natural (pos n) = n
natural n = 0

abbrev pub point : ℤ → Option Bytes → CallsPerMinutePoint
point t val = record { minute = t; call_count = count_of val }

-- The second loop of GetCallsPerMinute over the window and MGET's values.
unfoldable pub points : List ℤ → List (Option Bytes) → List CallsPerMinutePoint
points (t ∷ ts) (val ∷ vals) = point t val ∷ points ts vals
points _ _ = []

abbrev pub in_context : {A B : Type 0} → Bytes → (A → B) → Result A → Result B
in_context text f (ok a) = ok (f a)
in_context text f (err e) = err (wrapped text e)

abbrev done : Unit {0} → Unit {0}
done u = u

-- `sort` is sort.Float64s and `parse_float` is strconv.ParseFloat(v, 64), `none` for an error.
module _ {F : Type 0} ⦃fl : Float64 F⦄ (R : Server F) (parse_float : Bytes → Option F)
    (sort : List F → List F) where
  unfoldable pub is_duplicate : Bytes → R.State → R.State × Result Bool
  is_duplicate event_id s =
      let (s', set) = R.set_nx (dedup_key event_id) (codes "1") dedup_ttl s in
      (s', in_context (codes "redis: dedup check") not set)

  unfoldable pub incr_calls_per_minute : ℤ → R.State → R.State × Result (Unit {0})
  incr_calls_per_minute ts s =
      let k = calls_key (minute_bucket ts) in
      let (s', sent) = R.exec (incr k ∷ expire k (pos ((calls_window_minutes + 5) * 60)) ∷ []) s in
      (s', in_context (codes "redis: incr calls per minute") done sent)

  -- `now` is time.Now() in milliseconds. A number of minutes below zero, with which
  -- `make` would panic, gives an empty window here.
  unfoldable pub get_calls_per_minute :
      ℤ → ℤ → R.State → R.State × Result (List CallsPerMinutePoint)
  get_calls_per_minute now minutes s =
      let ts = window (window_start now minutes) 0 (natural minutes) in
      let (s', vals) = R.mget (map key_at ts) s in
      (s', in_context (codes "redis: get calls per minute") (points ts) vals)

  unfoldable pub append_latency : Bytes → Bytes → ℤ → R.State → R.State × Result (Unit {0})
  append_latency provider model latency_ms s =
      let k = latency_key provider (sanitize_model model) in
      let (s', sent) =
        R.exec
          (rpush k (format_int latency_ms)
            ∷ ltrim_last k max_latency_samples
            ∷ expire k (pos (25 * 60 * 60))
            ∷ [])
          s in
      (s', in_context (codes "redis: append latency") done sent)

  -- One key of GetLatencyPercentiles: what is no latency key, cannot be read or is empty is left out.
  unfoldable pub percentiles_of : Bytes → R.State → R.State × Option (LatencyPercentiles F)
  percentiles_of k s = elim (parse_latency_key k) [
    | none ↦ (s, none)
    | some (provider, model) ↦
        let (s', vals) = R.lrange k s in
        (
          s',
          elim vals [
            | err _ ↦ none
            | ok [] ↦ none
            | ok (v ∷ vs) ↦
                let samples = sort (filter_map parse_float (v ∷ vs)) in
                some (record {
                  provider = provider;
                  model = model;
                  p50 = percentile samples (fl.decimal 50 0);
                  p95 = percentile samples (fl.decimal 95 0);
                  p99 = percentile samples (fl.decimal 99 0);
                })
          ],
        )
  ]

  abbrev cons_some : {A : Type 0} → Option A → List A → List A
  cons_some none xs = xs
  cons_some (some x) xs = x ∷ xs

  unfoldable pub all_percentiles : List Bytes → R.State → R.State × List (LatencyPercentiles F)
  all_percentiles [] s = (s, [])
  all_percentiles (k ∷ ks) s =
      let (s1, one) = percentiles_of k s in
      let (s2, more) = all_percentiles ks s1 in (s2, cons_some one more)

  unfoldable pub get_latency_percentiles : R.State → R.State × Result (List (LatencyPercentiles F))
  get_latency_percentiles s =
      let (s1, keys) = R.scan (latency_key (codes "*") (codes "*")) s in
      elim keys [
        | err x ↦ (s1, err (wrapped (codes "redis: scan latency keys") x))
        | ok ks ↦ let (s2, all) = all_percentiles ks s1 in (s2, ok all)
      ]

  unfoldable pub incr_cost : Bytes → F → R.State → R.State × Result (Unit {0})
  incr_cost provider cost s =
      let (s', r) = R.hincr_by_float key_cost_total provider cost s in
      (s', in_context (codes "redis: incr cost") done r)

  -- A value that is no number is left out.
  abbrev cost_entry : Bytes × Bytes → Option (CostByProvider F)
  cost_entry (provider, text) = elim (parse_float text) [
    | none ↦ none
    | some cost ↦ some (record { provider = provider; total_usd = cost })
  ]

  unfoldable pub get_cost_by_provider : R.State → R.State × Result (List (CostByProvider F))
  get_cost_by_provider s =
      let (s', vals) = R.hgetall key_cost_total s in
      (s', in_context (codes "redis: get cost by provider") (filter_map cost_entry) vals)

  abbrev pub redis_cache : Cache F
  redis_cache = record {
    State = R.State;
    is_duplicate = is_duplicate;
    incr_calls_per_minute = incr_calls_per_minute;
    get_calls_per_minute = get_calls_per_minute;
    append_latency = append_latency;
    get_latency_percentiles = get_latency_percentiles;
    incr_cost = incr_cost;
    get_cost_by_provider = get_cost_by_provider;
    health_check = R.ping;
  }
