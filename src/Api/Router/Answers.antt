-- ===== src/Api/Router/Answers.antt =====
-- What the stack of internal/api/router.go answers to a post of an event and to a preflight.
use llmwatch.Base.{
  ℕ, Bytes, codes, List, [], ◌∷◌, ◌++◌, false, ◌==◌, bytes_eq, bytes_beq, bytes_beq_iff, nat_eq, ℤ,
  some, Float64, Result, ok, err, ◌≡◌, ◌≢◌, refl, sym, ap, ap₂, ◌∙◌, arith,
}
use llmwatch.Models.{LlmCallEvent, normalize}
use llmwatch.Db.Store.{Store}
use llmwatch.Redis.Cache.{Cache}
use llmwatch.Kafka.Message.{Codec}
use llmwatch.Kafka.Producer.{EventProducer}
use llmwatch.Api.Ingest.{ApiState, ingest, handle_ingest_event}
use llmwatch.Api.Middleware.{
  Request, ResponseWriter, Handler, set_header, header, write_header, write_json, cors_headers,
  cors_middleware, HttpCounters, Served,
}
use llmwatch.Api.Router.{ApiWorld, on_api, routes, Chi, new_router}
use llmwatch.Api.Router.Dispatch.{
  find_route, IsChi, routes-unambiguous, logged, served, allowed_all, asked, untouched,
}

header_set :
    (name value : Bytes) (headers : List (Bytes × Bytes))
    → header name (set_header name value headers) ≡ some value
unfolding header set_header
header_set name value [] = ground (arith, bytes_beq_iff name name)
header_set name value ((n, v) ∷ headers) =
    ground (arith, bytes_beq_iff name name, header_set name value headers)

header_other :
    (name other value : Bytes) (headers : List (Bytes × Bytes))
    → other == name ≡ false
    → header name (set_header other value headers) ≡ header name headers
unfolding header set_header
header_other name other value [] h = ground (arith, h, bytes_beq_iff other name)
header_other name other value ((n, v) ∷ headers) h = ground (
  arith,
  h,
  bytes_beq_iff other name,
  bytes_beq_iff n other,
  bytes_beq_iff n name,
  header_other name other value headers h,
)

any_origin :
    (headers : List (Bytes × Bytes))
    → header (codes "Access-Control-Allow-Origin") (cors_headers headers) ≡ some (codes "*")
unfolding cors_headers bytes_beq
any_origin headers =
    let origin = codes "Access-Control-Allow-Origin" in
    let allows_all = set_header origin (codes "*") headers in
    let methods = codes "GET, POST, PUT, DELETE, OPTIONS" in
    header_other origin (codes "Access-Control-Allow-Headers")
      (codes "Accept, Authorization, Content-Type, X-Request-ID")
      (set_header (codes "Access-Control-Allow-Methods") methods allows_all) refl
    ∙ header_other origin (codes "Access-Control-Allow-Methods") methods allows_all refl
    ∙ header_set origin (codes "*") headers

post_ne_options : codes "POST" ≢ codes "OPTIONS"
post_ne_options = cc

write_header_fresh :
    {F : Type 0} (status : ℕ) (w : ResponseWriter F)
    → w.status ≡ 0
    → write_header status w ≡ record w { status = status }
unfolding write_header
write_header_fresh status w fresh = ground (arith, fresh)

module _ {F : Type 0} (chi : Chi F) where
  -- How the logger counts a status that is written.
  logged_status :
      {W : Type 0} (r : Request F) (counters : HttpCounters) (x : W × ResponseWriter F) (status : ℕ)
      → x.1.status ≡ status
      → status ≢ 0
      → (logged chi.status_text r counters x).0.counters.requests
        ≡ counters.requests ++ (r.method, r.path, chi.status_text status) ∷ []
  logged_status r counters x status e h = ground (arith, e, h)

module _ {F : Type 0} ⦃fl : Float64 F⦄ (codec : Codec F) (P : EventProducer F) where
  ingest-status : (e : LlmCallEvent F) (s : ApiState P) → (ingest codec P e s).1.status ≢ 0
  unfolding ingest
  ingest-status e s h = ground (arith, h)

  handle_ingest_event-status :
      (new_id : Bytes) (now : ℤ) (event : Result (LlmCallEvent F)) (s : ApiState P)
      → (handle_ingest_event codec P new_id now event s).1.status ≢ 0
  unfolding handle_ingest_event
  handle_ingest_event-status new_id now (err x) s h = ground (arith, h)
  handle_ingest_event-status new_id now (ok event) s h =
      ingest-status (normalize new_id now event) s h

module _ {F : Type 0} ⦃fl : Float64 F⦄ (codec : Codec F) (P : EventProducer F) (S : Store F)
    (C : Cache F) (chi : Chi F) (laws : IsChi chi)
    (metrics : Request F → ResponseWriter F → ResponseWriter F) where
  abbrev post_event : Handler F (ApiWorld P S C)
  post_event = on_api codec P S C λ r. handle_ingest_event codec P (r.new_id 0) (r.now 0) r.event

  events_route :
      find_route (routes codec P S C metrics) (codes "POST") (codes "/api/v1/events")
      ≡ some post_event
  unfolding routes bytes_beq
  events_route = refl

  post_event_answer :
      (r : Request F) (w : ResponseWriter F) (s : ApiWorld P S C)
      → w.status ≡ 0
      → let (api, answer) = handle_ingest_event codec P (r.new_id 0) (r.now 0) r.event s.api in
        ((post_event r w s).0 ≡ record s { api = api })
        × ((post_event r w s).1.status ≡ answer.status)
  unfolding on_api write_json write_header
  post_event_answer r w s fresh = ground (arith, fresh)

  -- Over a chi library that does what it documents: when an event is posted to /api/v1/events
  -- and no status has been written, the stack leaves the state that HandleIngestEvent leaves,
  -- sends its status, and counts the request once under this status.
  pub post_event_served :
      (r : Request F) (w : ResponseWriter F) (s : Served (ApiWorld P S C))
      → r.method ≡ codes "POST"
      → r.path ≡ codes "/api/v1/events"
      → w.status ≡ 0
      → let (api, answer) =
          handle_ingest_event codec P (r.new_id 0) (r.now 0) r.event s.world.api in
        let x = new_router chi (routes codec P S C metrics) r w s in
        (x.0.world ≡ record (s.world) { api = api })
        × (x.1.status ≡ answer.status)
        × (x.0.counters.requests
            ≡ s.counters.requests ++ (r.method, r.path, chi.status_text answer.status) ∷ [])
  post_event_served r w s posts events fresh =
      let table = routes codec P S C metrics in
      let w' = allowed_all chi laws table w in
      let handled = handle_ingest_event codec P (r.new_id 0) (r.now 0) r.event s.world.api in
      let z = cors_middleware (chi.compress (chi.mux table)) r w s.world in
      let answered = served chi laws table r w s in
      let (state, status) =
        asked chi laws table r w s.world (λ e. post_ne_options (sym posts ∙ e)) in
      let found = ap₂ (find_route table) posts events ∙ events_route in
      let routed = laws.routed table r w' s.world (routes-unambiguous codec P S C metrics) found in
      let (kept, sent) = post_event_answer r w' s.world fresh in
      let status_sent : z.1.status ≡ handled.1.status =
        status ∙ ap (λ (x : ApiWorld P S C × ResponseWriter F). x.1.status) routed ∙ sent in
      (
        ap (λ x. x.0.world) answered
            ∙ state
            ∙ ap (λ (x : ApiWorld P S C × ResponseWriter F). x.0) routed
            ∙ kept,
        ap (λ x. x.1.status) answered ∙ status_sent,
        ap (λ x. x.0.counters.requests) answered
            ∙ logged_status chi r s.counters z handled.1.status status_sent
                (handle_ingest_event-status codec P (r.new_id 0) (r.now 0) r.event s.world.api),
      )

  -- Over a chi library that does what it documents: a request with the method OPTIONS, to
  -- whatever path, changes nothing behind the router; if no status has been written it is
  -- answered with 204 and allows any origin, and it is counted once under this status.
  pub preflight_served :
      (r : Request F) (w : ResponseWriter F) (s : Served (ApiWorld P S C))
      → r.method ≡ codes "OPTIONS"
      → w.status ≡ 0
      → let x = new_router chi (routes codec P S C metrics) r w s in
        (x.0.world ≡ s.world)
        × (x.1.status ≡ 204)
        × (header (codes "Access-Control-Allow-Origin") x.1.headers ≡ some (codes "*"))
        × (x.0.counters.requests
            ≡ s.counters.requests ++ (r.method, r.path, chi.status_text 204) ∷ [])
  preflight_served r w s preflight fresh =
      let table = routes codec P S C metrics in
      let w' = allowed_all chi laws table w in
      let answered =
        served chi laws table r w s
        ∙ ap (logged chi.status_text r s.counters)
            (untouched chi laws table r w s.world preflight) in
      let written = write_header_fresh 204 w' fresh in
      (
        ap (λ x. x.0.world) answered,
        ap (λ x. x.1.status) answered ∙ ap (λ v. v.status) written,
        ap (λ x. header (codes "Access-Control-Allow-Origin") x.1.headers) answered
            ∙ ap (λ v. header (codes "Access-Control-Allow-Origin") v.headers) written
            ∙ any_origin w.headers,
        ap (λ x. x.0.counters.requests) answered
            ∙ logged_status chi r s.counters (s.world, write_header 204 w') 204
                (ap (λ v. v.status) written) (omega arith),
      )
