-- ===== src/Api/Router/Dispatch.antt =====
-- What the stack of internal/api/router.go does to a request.
use llmwatch.Base.{
  ℕ, Bytes, codes, List, [], ◌∷◌, ◌++◌, All, Bool, true, false, not, ◌&&◌, ◌||◌, ◌==◌, bytes_eq,
  bytes_beq, bytes_beq_iff, nat_eq, if◌then◌else◌, Option, none, some, Float64, ◌≡◌, ◌≢◌, refl, ap,
  subst, ◌∙◌, arith, Bool-cases, inl, inr,
}
use llmwatch.Db.Store.{Store}
use llmwatch.Redis.Cache.{Cache}
use llmwatch.Kafka.Message.{Codec}
use llmwatch.Kafka.Producer.{EventProducer}
use llmwatch.Api.Middleware.{
  Request, ResponseWriter, Handler, write_header, cors_headers, cors_middleware, HttpCounters,
  Served, request_logger,
}
use llmwatch.Api.Router.{Route, routes, Chi, new_router}

-- Whether a line takes a method.
abbrev pub allows : Option Bytes → Bytes → Bool
allows none method = true
allows (some m) method = m == method

-- The handler of the first line that takes the request.
abbrev pub find_route : {H : Type 0} → List (Route H) → Bytes → Bytes → Option H
find_route [] method path = none
find_route (r ∷ table) method path =
    let rest = find_route table method path in
    if allows r.method method && (r.path == path) then some r.handler else rest

-- Two lines for one method and path.
abbrev clash : {H : Type 0} → Route H → Route H → Bool
clash a b = (a.path == b.path) && (elim a.method [ none ↦ true | some m ↦ allows b.method m ])

abbrev clashes : {H : Type 0} → Route H → List (Route H) → Bool
clashes a [] = false
clashes a (b ∷ table) = clash a b || clashes a table

abbrev pub unambiguous : {H : Type 0} → List (Route H) → Bool
unambiguous [] = true
unambiguous (r ∷ table) = not (clashes r table) && unambiguous table

-- What the libraries document, as far as the model sees it: the middleware of chi passes a request
-- on, Recoverer when nothing panics, and Compress changes neither the state nor the status; the
-- router calls the handler of the line for the request's method and path in a table of fixed paths
-- without two such lines, and without one it leaves the state alone.
pub record IsChi {F : Type 0} (chi : Chi F) : Type 1 where
  pub passes_real_ip :
      {W : Type 0} (next : Handler F W) (r : Request F) (w : ResponseWriter F) (s : W)
      → chi.real_ip next r w s ≡ next r w s
  pub passes_request_id :
      {W : Type 0} (next : Handler F W) (r : Request F) (w : ResponseWriter F) (s : W)
      → chi.request_id next r w s ≡ next r w s
  pub passes_recoverer :
      {W : Type 0} (next : Handler F W) (r : Request F) (w : ResponseWriter F) (s : W)
      → chi.recoverer next r w s ≡ next r w s
  pub passes_compress :
      {W : Type 0} (next : Handler F W) (r : Request F) (w : ResponseWriter F) (s : W)
      → ((chi.compress next r w s).0 ≡ (next r w s).0)
        × ((chi.compress next r w s).1.status ≡ (next r w s).1.status)
  pub routed :
      {W : Type 0} (table : List (Route (Handler F W))) (r : Request F) (w : ResponseWriter F)
      (s : W) {h : Handler F W}
      → unambiguous table ≡ true
      → find_route table r.method r.path ≡ some h
      → chi.mux table r w s ≡ h r w s
  pub unrouted :
      {W : Type 0} (table : List (Route (Handler F W))) (r : Request F) (w : ResponseWriter F)
      (s : W)
      → unambiguous table ≡ true
      → find_route table r.method r.path ≡ none
      → (chi.mux table r w s).0 ≡ s

module _ {F : Type 0} ⦃fl : Float64 F⦄ (codec : Codec F) (P : EventProducer F) (S : Store F)
    (C : Cache F) (metrics : Request F → ResponseWriter F → ResponseWriter F) where
  -- No two lines of the table take one request.
  pub routes-unambiguous : unambiguous (routes codec P S C metrics) ≡ true
  unfolding routes bytes_beq
  routes-unambiguous = refl

-- A request that has been answered, as the logger counts it.
abbrev pub logged :
    {F W : Type 0}
    → (ℕ → Bytes)
    → Request F
    → HttpCounters
    → W × ResponseWriter F
    → Served W × ResponseWriter F
logged status_text r counters (world, w) =
    let status = if w.status == 0 then 200 else w.status in
    (
      record {
        world = world;
        counters = record {
          requests = counters.requests ++ (r.method, r.path, status_text status) ∷ [];
          durations = counters.durations ++ (r.method, r.path) ∷ [];
        };
      },
      w,
    )

module _ {F : Type 0} (chi : Chi F) (laws : IsChi chi) {W : Type 0}
    (table : List (Route (Handler F W))) where
  -- The logger around CORS is what is left of the stack.
  pub served :
      (r : Request F) (w : ResponseWriter F) (s : Served W)
      → new_router chi table r w s
        ≡ logged chi.status_text r s.counters
            (cors_middleware (chi.compress (chi.mux table)) r w s.world)
  unfolding new_router request_logger
  served r w s =
      laws.passes_real_ip _ r w s
      ∙ laws.passes_request_id _ r w s
      ∙ ap (logged chi.status_text r s.counters)
          (laws.passes_recoverer (cors_middleware (chi.compress (chi.mux table))) r w s.world)

  -- What the handlers see behind CORS.
  abbrev pub allowed_all : ResponseWriter F → ResponseWriter F
  allowed_all w = record w { headers = cors_headers w.headers }

  -- Behind CORS the table is asked, except for OPTIONS.
  pub asked :
      (r : Request F) (w : ResponseWriter F) (s : W)
      → r.method ≢ codes "OPTIONS"
      → let x = cors_middleware (chi.compress (chi.mux table)) r w s in
        let y = chi.mux table r (allowed_all w) s in (x.0 ≡ y.0) × (x.1.status ≡ y.1.status)
  unfolding cors_middleware
  asked r w s other = ground (
    arith,
    other,
    bytes_beq_iff r.method (codes "OPTIONS"),
    laws.passes_compress (chi.mux table) r (allowed_all w) s,
  )

  pub untouched :
      (r : Request F) (w : ResponseWriter F) (s : W)
      → r.method ≡ codes "OPTIONS"
      → cors_middleware (chi.compress (chi.mux table)) r w s ≡ (s, write_header 204 (allowed_all w))
  unfolding cors_middleware
  untouched r w s preflight = ground (arith, bytes_beq_iff r.method (codes "OPTIONS"))

some_injective : {A : Type 0} {a b : A} → some a ≡ some b → a ≡ b
some_injective h = cc

-- The handler that a table finds has what all its lines for the method have.
pub find_route-All :
    {H : Type 0} (Q : H → Type 0) (table : List (Route H)) (method path : Bytes) {h : H}
    → All (λ r. allows r.method method ≡ true → Q r.handler) table
    → find_route table method path ≡ some h
    → Q h
find_route-All Q [] method path every found = absurd (ground (arith, found))
find_route-All Q (r ∷ table) method path (here, there) found =
    elim (Bool-cases (allows r.method method)) [
      | inr refused ↦ find_route-All Q table method path there (ground (arith, found, refused))
      | inl taken ↦ elim (Bool-cases (r.path == path)) [
        | inl same ↦ subst Q (some_injective (ground (arith, found, taken, same))) (here taken)
        | inr other ↦ find_route-All Q table method path there (ground (arith, found, taken, other))
      ]
    ]
