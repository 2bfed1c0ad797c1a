-- ===== src/Api/Query/Bounds.antt =====
-- The numbers that the reading handlers of internal/api/handlers.go pass on.
use llmwatch.Base.{
  ℕ, ◌*◌, ◌^◌, ◌≤◌, ◌<◌, Bytes, codes, [], bytes_eq, bytes_beq_iff, ℤ, pos, negsuc, wrap64, scale,
  atoi-format_nat, format_nat, format_nat-StartsWithDigit, Bool, true, ◌≡◌, ◌≢◌, refl, subst,
  StartsWithDigit, ◌≤ℤ◌, arith, ◌<ℤ◌,
}
use llmwatch.Db.Store.{Store}
use llmwatch.Redis.Cache.{Cache}
use llmwatch.Api.Response.{Response, Body}
use llmwatch.Api.Query.{
  query_int, at_most, any_size, hour_ns, hours_duration, answer, handle_get_summary,
  handle_get_calls, handle_get_calls_per_minute, handle_get_error_rates,
}

query_int_bounded :
    (default limit : ℕ) (text : Bytes)
    → 1 ≤ default
    → default ≤ limit
    → let q = query_int (pos default) (at_most limit) text in (pos 1 ≤ℤ q) × (q ≤ℤ pos limit)
unfolding query_int
query_int_bounded default limit text low high = ground arith

format_nat-ne-nil : (n : ℕ) → format_nat n ≢ []
format_nat-ne-nil n e = subst StartsWithDigit e (format_nat-StartsWithDigit n)

pub query_int-format_nat :
    (default : ℤ) (fits : ℤ → Bool) (n : ℕ)
    → 1 ≤ n
    → n < 2 ^ 63
    → fits (pos n) ≡ true
    → query_int default fits (format_nat n) ≡ pos n
unfolding query_int
query_int-format_nat default fits n low short good =
    ground (arith, bytes_beq_iff (format_nat n) [], format_nat-ne-nil n, atoi-format_nat n short)

scale_bounded :
    (q : ℤ) (limit : ℕ)
    → pos 1 ≤ℤ q
    → q ≤ℤ pos limit
    → limit ≤ 168
    → let d = hours_duration q in (pos hour_ns ≤ℤ d) × (d ≤ℤ pos (limit * hour_ns))
unfolding hours_duration scale wrap64
scale_bounded (pos n) limit low high small = ground arith
scale_bounded (negsuc n) limit low high small = absurd (omega arith)

pub exact_duration : (n : ℕ) → n ≤ 168 → hours_duration (pos n) ≡ pos (n * hour_ns)
unfolding hours_duration scale wrap64
exact_duration n h = ground arith

negative_duration : (n : ℕ) → 2562048 ≤ n → n ≤ 5124095 → hours_duration (pos n) <ℤ pos 0
unfolding hours_duration scale wrap64
negative_duration n low high = ground arith

-- The answer with a summary over a duration.
abbrev pub summary_over : {F : Type 0} (S : Store F) → ℤ → S.State → S.State × Response F
summary_over S d s =
    let (s', r) = S.get_summary d s in (s', answer (codes "failed to fetch summary") Body.summary r)

abbrev pub recent_calls : {F : Type 0} (S : Store F) → ℤ → S.State → S.State × Response F
recent_calls S n s =
    let (s', r) = S.get_recent_calls n s in
    (s', answer (codes "failed to fetch calls") Body.calls r)

abbrev pub last_minutes : {F : Type 0} (C : Cache F) → ℤ → ℤ → C.State → C.State × Response F
last_minutes C now n c =
    let (c', r) = C.get_calls_per_minute now n c in
    (c', answer (codes "failed to fetch calls per minute") Body.points r)

module _ {F : Type 0} (S : Store F) where
  -- A number of hours from 1 to 168, in decimal, is the duration of the summary.
  pub summary_as_asked :
      (n : ℕ) (s : S.State)
      → 1 ≤ n
      → n ≤ 168
      → handle_get_summary S (format_nat n) s ≡ summary_over S (pos (n * hour_ns)) s
  unfolding handle_get_summary
  summary_as_asked n s low high = rw (
    query_int-format_nat (pos 24) (at_most 168) n low (omega arith) (ground arith),
    exact_duration n high,
  )

module _ {F : Type 0} (S : Store F) (C : Cache F) where
  -- Whatever text the query parameter holds, the summary is asked over at least one and at most
  -- 168 hours, the recent calls for at least one and at most 500, and the calls per minute for
  -- at least one and at most 1440 minutes.
  pub reads_bounded :
      (text : Bytes) (now : ℤ) (s : S.State) (c : C.State)
      → ((d : ℤ) × (handle_get_summary S text s ≡ summary_over S d s)
          × (pos hour_ns ≤ℤ d)
          × (d ≤ℤ pos (168 * hour_ns)))
        × ((n : ℤ) × (handle_get_calls S text s ≡ recent_calls S n s)
            × (pos 1 ≤ℤ n)
            × (n ≤ℤ pos 500))
        × ((n : ℤ) × (handle_get_calls_per_minute C now text c ≡ last_minutes C now n c)
            × (pos 1 ≤ℤ n)
            × (n ≤ℤ pos 1440))
  unfolding handle_get_summary handle_get_calls handle_get_calls_per_minute
  reads_bounded text now s c =
      let (low, high) = query_int_bounded 24 168 text (omega arith) (omega arith) in
      let (some_hours, few_hours) =
        scale_bounded (query_int (pos 24) (at_most 168) text) 168 low high (omega arith) in
      let (some_calls, few_calls) = query_int_bounded 50 500 text (omega arith) (omega arith) in
      let (some_minutes, few_minutes) =
        query_int_bounded 60 1440 text (omega arith) (omega arith) in
      (
        (_, refl, some_hours, few_hours),
        (_, refl, some_calls, few_calls),
        (_, refl, some_minutes, few_minutes),
      )

  -- The error rates have no upper bound on the hours: from 2562048 to 5124095 hours the int64
  -- product overflows, and the store is asked over a negative duration.
  pub error_rates_overflow :
      (n : ℕ) (s : S.State)
      → 2562048 ≤ n
      → n ≤ 5124095
      → (d : ℤ) × ((handle_get_error_rates S (format_nat n) s).0 ≡ (S.get_error_rates d s).0)
        × (d <ℤ pos 0)
  unfolding handle_get_error_rates
  error_rates_overflow n s low high = (
    hours_duration (pos n),
    rw (query_int-format_nat (pos 24) any_size n (omega arith) (omega arith) refl),
    negative_duration n low high,
  )
