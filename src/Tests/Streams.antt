-- ===== src/Tests/Streams.antt =====
-- The event streams and the reading handlers at concrete data.
use llmwatch.Base.{
  ◌*◌, Bytes, codes, List, [], ◌∷◌, ◌++◌, ℤ, pos, ◌≤ℤ◌, ◌<ℤ◌, some, ◌≡◌, refl, arith, format_nat,
}
use llmwatch.Api.Sse.{Client, Hub, Event, opened, closed, published, received, ticked, ping, run}
use llmwatch.Api.Sse.Delivery.{given, Subsequence}
use llmwatch.Api.Sse.Streams.{find, stream_in_order, stream_lossless}
use llmwatch.Api.Query.{
  hour_ns, handle_get_summary, handle_get_error_rates, handle_get_calls,
  handle_get_calls_per_minute,
}
use llmwatch.Api.Query.Bounds.{
  summary_over, recent_calls, last_minutes, reads_bounded, error_rates_overflow,
}
use llmwatch.Tests.Fixtures.{fixed, table, marks}

abbrev reader : Client
reader = record { id = 0; queue = codes "a" ∷ []; written = ping ∷ [] }

abbrev hub : Hub
hub = record { clients = reader ∷ []; next_id = 1 }

abbrev events : List Event
events =
    opened
    ∷ published (codes "b")
    ∷ received 0
    ∷ closed 1
    ∷ ticked 0
    ∷ published (codes "c")
    ∷ received 0
    ∷ []

stream_in_order_example :
    (c' : Client) × (kept : List Bytes) × (find 0 (run hub events).clients ≡ some c')
    × Subsequence kept (codes "b" ∷ codes "c" ∷ [])
    × (given c' ≡ (codes "a" ∷ []) ++ kept)
stream_in_order_example = stream_in_order 0 events hub reader (omega arith, tt) refl

stream_lossless_example :
    (c' : Client) × (find 0 (run hub events).clients ≡ some c')
    × (given c' ≡ codes "a" ∷ codes "b" ∷ codes "c" ∷ [])
stream_lossless_example = stream_lossless 0 events hub reader (omega arith, tt) refl (omega arith)

reads_bounded_example :
    ((d : ℤ) × (handle_get_summary table (codes "999") [] ≡ summary_over table d [])
      × (pos hour_ns ≤ℤ d)
      × (d ≤ℤ pos (168 * hour_ns)))
    × ((n : ℤ) × (handle_get_calls table (codes "999") [] ≡ recent_calls table n [])
        × (pos 1 ≤ℤ n)
        × (n ≤ℤ pos 500))
    × ((n : ℤ) × (handle_get_calls_per_minute marks (pos 5) (codes "999") []
          ≡ last_minutes marks (pos 5) n [])
        × (pos 1 ≤ℤ n)
        × (n ≤ℤ pos 1440))
reads_bounded_example = reads_bounded table marks (codes "999") (pos 5) [] []

error_rates_overflow_example :
    (d : ℤ) × ((handle_get_error_rates table (format_nat 3000000) []).0
      ≡ (table.get_error_rates d []).0)
    × (d <ℤ pos 0)
error_rates_overflow_example =
    error_rates_overflow table marks 3000000 [] (omega arith) (omega arith)
