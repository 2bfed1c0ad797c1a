-- ===== src/Api/Middleware.antt =====
-- internal/api/middleware.go: `RequestLogger` and `CORSMiddleware`, over what they use of net/http.
use llmwatch.Base.{
  ℕ, Bytes, codes, List, [], ◌∷◌, ◌++◌, ◌==◌, bytes_eq, nat_eq, if◌then◌else◌, ℤ, Option, none,
  some, Result, Bool,
}
use llmwatch.Models.{LlmCallEvent}
use llmwatch.Api.Sse.{Event}
use llmwatch.Api.Response.{Response, Body}

-- A request: its method and its path, the parameters of its query, what the JSON decoder makes of
-- its body, and what the generator of ids and the clock give, and what happens at the hub of streams,
-- while it is served.
pub record Request (F : Type 0) : Type 0 where
  pub method : Bytes
  pub path : Bytes
  pub param : Bytes → Bytes
  pub event : Result (LlmCallEvent F)
  pub events : Result (List (LlmCallEvent F))
  pub new_id : ℕ → Bytes
  pub now : ℕ → ℤ
  pub hub_events : List Event

-- http.ResponseWriter: the headers, the status with 0 until it is written, the body, and whether it
-- is an http.Flusher.
pub record ResponseWriter (F : Type 0) : Type 0 where
  pub headers : List (Bytes × Bytes)
  pub status : ℕ
  pub body : Option (Body F)
  pub can_flush : Bool

-- http.Handler on a state `W`.
abbrev pub Handler : Type 0 → Type 0 → Type 0
Handler F W = Request F → ResponseWriter F → W → W × ResponseWriter F

-- Header.Set on canonical names.
unfoldable pub set_header : Bytes → Bytes → List (Bytes × Bytes) → List (Bytes × Bytes)
set_header name value [] = (name, value) ∷ []
set_header name value ((n, v) ∷ headers) =
    let rest = set_header name value headers in
    if n == name then (name, value) ∷ headers else (n, v) ∷ rest

-- The three headers.
unfoldable pub cors_headers : List (Bytes × Bytes) → List (Bytes × Bytes)
unfolding set_header
cors_headers headers =
    set_header (codes "Access-Control-Allow-Headers")
      (codes "Accept, Authorization, Content-Type, X-Request-ID")
      (set_header (codes "Access-Control-Allow-Methods") (codes "GET, POST, PUT, DELETE, OPTIONS")
        (set_header (codes "Access-Control-Allow-Origin") (codes "*") headers))

-- The value of a header.
unfoldable pub header : Bytes → List (Bytes × Bytes) → Option Bytes
header name [] = none
header name ((n, v) ∷ headers) =
    let rest = header name headers in if n == name then some v else rest

module _ {F : Type 0} where
  -- WriteHeader; a second status is ignored.
  unfoldable pub write_header : ℕ → ResponseWriter F → ResponseWriter F
  write_header status w = if w.status == 0 then record w { status = status } else w

  -- writeJSON
  unfoldable pub write_json : Response F → ResponseWriter F → ResponseWriter F
  unfolding set_header write_header
  write_json r w =
      let w' : ResponseWriter F = record w {
        headers = set_header (codes "Content-Type") (codes "application/json") w.headers;
      } in
      record (write_header r.status w') { body = some r.body }

  unfoldable pub cors_middleware : {W : Type 0} → Handler F W → Handler F W
  unfolding cors_headers write_header
  cors_middleware next r w s =
      let w' : ResponseWriter F = record w { headers = cors_headers w.headers } in
      if r.method == codes "OPTIONS" then (s, write_header 204 w') else next r w' s

-- The labels (method, path, status) of the increments of httpRequestsTotal and those (method, path) of
-- the observations of httpRequestDuration, in order.
pub record HttpCounters : Type 0 where
  pub requests : List (Bytes × Bytes × Bytes)
  pub durations : List (Bytes × Bytes)

-- The state of the handlers with the counters.
pub record Served (W : Type 0) : Type 0 where
  pub world : W
  pub counters : HttpCounters

module _ {F : Type 0} (status_text : ℕ → Bytes) where
  -- The middleware; `status_text` is http.StatusText. A handler that writes no status has answered
  -- with 200.
  unfoldable pub request_logger : {W : Type 0} → Handler F W → Handler F (Served W)
  request_logger next r w s =
      let (world, w') = next r w s.world in
      let status = if w'.status == 0 then 200 else w'.status in
      (
        record {
          world = world;
          counters = record {
            requests = s.counters.requests ++ (r.method, r.path, status_text status) ∷ [];
            durations = s.counters.durations ++ (r.method, r.path) ∷ [];
          };
        },
        w',
      )
