-- ===== src/Api/Router.antt =====
-- internal/api/router.go: `NewRouter`, over the routing and the middleware of the chi library.
pub mod Dispatch
pub mod Answers
pub mod Topic
use llmwatch.Base.{
  ℕ, Bytes, codes, List, [], ◌∷◌, ◌++◌, map, Bool, true, false, not, ◌&&◌, ◌||◌, ◌==◌, bytes_eq,
  if◌then◌else◌, ℤ, Option, none, some, Float64, Result,
}
use llmwatch.Db.Store.{Store}
use llmwatch.Redis.Cache.{Cache}
use llmwatch.Kafka.Message.{Codec}
use llmwatch.Kafka.Producer.{EventProducer}
use llmwatch.Api.Response.{Response}
use llmwatch.Api.Ingest.{ApiState, handle_ingest_event, handle_ingest_batch}
use llmwatch.Api.Stream.{handle_sse_stream}
use llmwatch.Api.Query.{
  handle_get_summary, handle_get_error_rates, handle_get_calls, handle_get_provider_comparison,
  handle_get_calls_per_minute, handle_get_latency_percentiles, handle_get_cost_by_provider,
  handle_health,
}
use llmwatch.Api.Middleware.{
  Request, ResponseWriter, Handler, write_json, cors_middleware, Served, request_logger,
}

-- A line of the table; `none` is any method.
pub record Route (H : Type 0) : Type 0 where
  pub method : Option Bytes
  pub path : Bytes
  pub handler : H

module _ {H : Type 0} where
  abbrev pub get : Bytes → H → Route H
  get path h = record { method = some (codes "GET"); path = path; handler = h }

  abbrev pub post : Bytes → H → Route H
  post path h = record { method = some (codes "POST"); path = path; handler = h }

  abbrev pub any_method : Bytes → H → Route H
  any_method path h = record { method = none; path = path; handler = h }

  -- r.Route: the lines of the inner function below a prefix.
  abbrev pub below : Bytes → List (Route H) → List (Route H)
  below prefix [] = []
  below prefix (r ∷ table) = record r { path = prefix ++ r.path } ∷ below prefix table

-- What the handlers work on.
pub record ApiWorld {F : Type 0} (P : EventProducer F) (S : Store F) (C : Cache F) : Type 0 where
  pub api : ApiState P
  pub db : S.State
  pub cache : C.State

module _ {F : Type 0} ⦃fl : Float64 F⦄ (codec : Codec F) (P : EventProducer F) (S : Store F)
    (C : Cache F) where
  abbrev ApiHandler : Type 0
  ApiHandler = Handler F (ApiWorld P S C)

  -- A handler on its part of the state, its answer written by writeJSON.
  unfoldable pub on_api :
      (Request F → ApiState P → ApiState P × Response F) → Handler F (ApiWorld P S C)
  unfolding write_json
  on_api handle r w s =
      let (a, answer) = handle r s.api in (record s { api = a }, write_json answer w)

  unfoldable pub on_store :
      (Request F → S.State → S.State × Response F) → Handler F (ApiWorld P S C)
  unfolding write_json
  on_store handle r w s =
      let (d, answer) = handle r s.db in (record s { db = d }, write_json answer w)

  unfoldable pub on_cache :
      (Request F → C.State → C.State × Response F) → Handler F (ApiWorld P S C)
  unfolding write_json
  on_cache handle r w s =
      let (c, answer) = handle r s.cache in (record s { cache = c }, write_json answer w)

  unfoldable pub health : Handler F (ApiWorld P S C)
  unfolding write_json
  health r w s =
      let ((d, c), answer) = handle_health S C (r.now 0) s.db s.cache in
      (record s { db = d; cache = c }, write_json answer w)

  unfoldable pub event_stream : Handler F (ApiWorld P S C)
  unfolding handle_sse_stream
  event_stream r w s = let (a, w') = handle_sse_stream P r w s.api in (record s { api = a }, w')

  -- The table. `metrics` is the handler of the Prometheus library, which writes an answer.
  unfoldable pub routes :
      (Request F → ResponseWriter F → ResponseWriter F) → List (Route (Handler F (ApiWorld P S C)))
  routes metrics =
      get (codes "/health") health
      ∷ any_method (codes "/metrics") (λ r w s. (s, metrics r w))
      ∷ below (codes "/api/v1") (
          post (codes "/events")
            (on_api λ r. handle_ingest_event codec P (r.new_id 0) (r.now 0) r.event)
          ∷ post (codes "/events/batch")
              (on_api λ r. handle_ingest_batch codec P r.new_id r.now r.events)
          ∷ get (codes "/events/stream") event_stream
          ∷ get (codes "/calls") (on_store λ r. handle_get_calls S (r.param (codes "limit")))
          ∷ below (codes "/metrics") (
              get (codes "/summary") (on_store λ r. handle_get_summary S (r.param (codes "hours")))
              ∷ get (codes "/calls-per-minute") (
                  on_cache λ r. handle_get_calls_per_minute C (r.now 0) (r.param (codes "minutes")))
              ∷ get (codes "/latency-percentiles") (on_cache λ r. handle_get_latency_percentiles C)
              ∷ get (codes "/cost-by-provider") (on_cache λ r. handle_get_cost_by_provider C)
              ∷ get (codes "/error-rates")
                  (on_store λ r. handle_get_error_rates S (r.param (codes "hours")))
              ∷ get (codes "/provider-comparison")
                  (on_store λ r. handle_get_provider_comparison S (r.param (codes "hours")))
              ∷ []))

-- What the router takes from net/http and chi: http.StatusText, the middleware and the routing.
pub record Chi (F : Type 0) : Type 1 where
  pub status_text : ℕ → Bytes
  pub real_ip : {W : Type 0} → Handler F W → Handler F W
  pub request_id : {W : Type 0} → Handler F W → Handler F W
  pub recoverer : {W : Type 0} → Handler F W → Handler F W
  pub compress : {W : Type 0} → Handler F W → Handler F W
  pub mux : {W : Type 0} → List (Route (Handler F W)) → Handler F W

-- The stack: the first Use is the outermost.
unfoldable pub new_router :
    {F W : Type 0} → Chi F → List (Route (Handler F W)) → Handler F (Served W)
unfolding request_logger cors_middleware
new_router chi table = chi.real_ip (
    chi.request_id (
      request_logger chi.status_text
        (chi.recoverer (cors_middleware (chi.compress (chi.mux table))))))
