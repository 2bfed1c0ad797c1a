-- ===== src/Api/Query.antt =====
-- internal/api/handlers.go: the query parameters and the handlers that read.
pub mod Bounds
pub mod Window
use llmwatch.Base.{
  ℕ, ◌*◌, Bytes, codes, List, [], ◌&&◌, ◌==◌, bytes_eq, if◌then◌else◌, ℤ, pos, ltb_ℤ, wrap64, scale,
  atoi, Option, none, some, not, Error, Result, ok, err, Bool, true,
}
use llmwatch.Db.Store.{Store}
use llmwatch.Redis.Cache.{Cache}
use llmwatch.Api.Response.{Response, Body, respond}

-- The pattern of the five handlers with a parameter: the default, unless the text is a number above
-- 0 that passes the handler's own test.
unfoldable pub query_int : ℤ → (ℤ → Bool) → Bytes → ℤ
query_int default fits text = if text == [] then default else elim (atoi text) [
  | none ↦ default
  | some n ↦ if ltb_ℤ (pos 0) n && fits n then n else default
]

abbrev pub at_most : ℕ → ℤ → Bool
at_most limit n = not (ltb_ℤ (pos limit) n)

abbrev pub any_size : ℤ → Bool
any_size n = true

abbrev pub hour_ns : ℕ
hour_ns = 60 * 60 * 1000000000

-- time.Duration(hours) * time.Hour, an int64 product.
unfoldable pub hours_duration : ℤ → ℤ
hours_duration hours = wrap64 (scale hours hour_ns)

-- The answer to a result of the store or the cache.
abbrev pub answer : {F A : Type 0} → Bytes → (A → Body F) → Result A → Response F
answer failure body (ok a) = respond 200 (body a)
answer failure body (err _) = respond 500 (Body.error_message failure)

module _ {F : Type 0} (S : Store F) where
  unfoldable pub handle_get_summary : Bytes → S.State → S.State × Response F
  unfolding query_int hours_duration
  handle_get_summary hours s =
      let (s', r) = S.get_summary (hours_duration (query_int (pos 24) (at_most 168) hours)) s in
      (s', answer (codes "failed to fetch summary") Body.summary r)

  unfoldable pub handle_get_error_rates : Bytes → S.State → S.State × Response F
  unfolding query_int hours_duration
  handle_get_error_rates hours s =
      let (s', r) = S.get_error_rates (hours_duration (query_int (pos 24) any_size hours)) s in
      (s', answer (codes "failed to fetch error rates") Body.rates r)

  unfoldable pub handle_get_calls : Bytes → S.State → S.State × Response F
  unfolding query_int
  handle_get_calls limit s =
      let (s', r) = S.get_recent_calls (query_int (pos 50) (at_most 500) limit) s in
      (s', answer (codes "failed to fetch calls") Body.calls r)

  unfoldable pub handle_get_provider_comparison : Bytes → S.State → S.State × Response F
  unfolding query_int hours_duration
  handle_get_provider_comparison hours s =
      let (s', r) =
        S.get_provider_comparison (hours_duration (query_int (pos 24) any_size hours)) s in
      (s', answer (codes "failed to fetch provider comparison") Body.comparisons r)

module _ {F : Type 0} (C : Cache F) where
  -- `now` is the time at which the cache is asked.
  unfoldable pub handle_get_calls_per_minute : ℤ → Bytes → C.State → C.State × Response F
  unfolding query_int
  handle_get_calls_per_minute now minutes s =
      let (s', r) = C.get_calls_per_minute now (query_int (pos 60) (at_most 1440) minutes) s in
      (s', answer (codes "failed to fetch calls per minute") Body.points r)

  unfoldable pub handle_get_latency_percentiles : C.State → C.State × Response F
  handle_get_latency_percentiles s =
      let (s', r) = C.get_latency_percentiles s in
      (s', answer (codes "failed to fetch latency percentiles") Body.percentiles r)

  unfoldable pub handle_get_cost_by_provider : C.State → C.State × Response F
  handle_get_cost_by_provider s =
      let (s', r) = C.get_cost_by_provider s in
      (s', answer (codes "failed to fetch cost data") Body.costs r)

-- HandleHealth: both the store and the cache are asked, whatever the first says.
unfoldable pub handle_health :
    {F : Type 0} (S : Store F) (C : Cache F)
    → ℤ
    → S.State
    → C.State
    → (S.State × C.State) × Response F
handle_health {F} S C now s c =
    let (s', postgres) = S.health_check s in
    let (c', redis) = C.health_check c in
    let degraded : Response F = respond 503 (Body.health (codes "degraded") postgres redis now) in
    (
      (s', c'),
      elim postgres [
        | err _ ↦ degraded
        | ok u ↦ elim redis [
          | err _ ↦ degraded
          | ok v ↦ respond 200 (Body.health (codes "ok") (ok u) (ok v) now)
        ]
      ],
    )
