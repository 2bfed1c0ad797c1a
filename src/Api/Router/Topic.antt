-- ===== src/Api/Router/Topic.antt =====
-- Which requests reach the topic through the table of internal/api/router.go.
use llmwatch.Base.{
  Bytes, codes, All, true, ◌==◌, bytes_eq, bytes_beq_iff, nat_eq, Float64, ◌≡◌, ◌≢◌, refl, ap, ◌∙◌,
  arith, Bool-cases, Option-cases, inl, inr,
}
use llmwatch.Db.Store.{Store}
use llmwatch.Redis.Cache.{Cache}
use llmwatch.Kafka.Message.{Codec}
use llmwatch.Kafka.Producer.{EventProducer}
use llmwatch.Api.Response.{Response}
use llmwatch.Api.Stream.{handle_sse_stream}
use llmwatch.Api.Middleware.{Request, ResponseWriter, Handler, Served}
use llmwatch.Api.Router.{
  ApiWorld, on_store, on_cache, health, event_stream, routes, Chi, new_router,
}
use llmwatch.Api.Router.Dispatch.{
  allows, find_route, find_route-All, IsChi, routes-unambiguous, served, allowed_all, asked,
  untouched,
}

-- A handler that leaves the topic alone.
pub record KeepsTopic {F : Type 0} (P : EventProducer F) (S : Store F) (C : Cache F)
    (h : Handler F (ApiWorld P S C)) : Type 0 where
  pub kept :
      (r : Request F) (w : ResponseWriter F) (s : ApiWorld P S C)
      → (h r w s).0.api.producer ≡ s.api.producer

module _ {F : Type 0} ⦃fl : Float64 F⦄ (codec : Codec F) (P : EventProducer F) (S : Store F)
    (C : Cache F) (chi : Chi F) (laws : IsChi chi)
    (metrics : Request F → ResponseWriter F → ResponseWriter F) where
  on_store-KeepsTopic :
      (handle : Request F → S.State → S.State × Response F)
      → KeepsTopic P S C (on_store codec P S C handle)
  unfolding on_store
  on_store-KeepsTopic handle = record { kept = λ r w s. refl }

  on_cache-KeepsTopic :
      (handle : Request F → C.State → C.State × Response F)
      → KeepsTopic P S C (on_cache codec P S C handle)
  unfolding on_cache
  on_cache-KeepsTopic handle = record { kept = λ r w s. refl }

  health-KeepsTopic : KeepsTopic P S C (health codec P S C)
  unfolding health
  health-KeepsTopic = record { kept = λ r w s. refl }

  event_stream-KeepsTopic : KeepsTopic P S C (event_stream codec P S C)
  unfolding event_stream handle_sse_stream
  event_stream-KeepsTopic = record { kept = λ r w s. ground arith }

  not_post :
      (method : Bytes) (h : Handler F (ApiWorld P S C))
      → method ≢ codes "POST"
      → codes "POST" == method ≡ true
      → KeepsTopic P S C h
  not_post method h other taken =
      absurd (ground (arith, other, bytes_beq_iff (codes "POST") method, taken))

  routes-All :
      (method : Bytes)
      → method ≢ codes "POST"
      → All
          (λ r. allows r.method method ≡ true → KeepsTopic P S C r.handler)
          (routes codec P S C metrics)
  unfolding routes
  routes-All method other = (
    λ _. health-KeepsTopic,
    (
      λ _. record { kept = λ r w s. refl },
      (
        not_post method _ other,
        (
          not_post method _ other,
          (
            λ _. event_stream-KeepsTopic,
            (
              λ _. on_store-KeepsTopic _,
              (
                λ _. on_store-KeepsTopic _,
                (
                  λ _. on_cache-KeepsTopic _,
                  (
                    λ _. on_cache-KeepsTopic _,
                    (
                      λ _. on_cache-KeepsTopic _,
                      (λ _. on_store-KeepsTopic _, (λ _. on_store-KeepsTopic _, tt)),
                    ),
                  ),
                ),
              ),
            ),
          ),
        ),
      ),
    ),
  )

  routed_kept :
      (r : Request F) (w : ResponseWriter F) (s : ApiWorld P S C)
      → r.method ≢ codes "POST"
      → (chi.mux (routes codec P S C metrics) r w s).0.api.producer ≡ s.api.producer
  routed_kept r w s other =
      let table = routes codec P S C metrics in
      elim (Option-cases (find_route table r.method r.path)) [
        | inl missing ↦
            ap (λ x. x.api.producer)
              (laws.unrouted table r w s (routes-unambiguous codec P S C metrics) missing)
        | inr (h, found) ↦
            ap (λ (x : ApiWorld P S C × ResponseWriter F). x.0.api.producer)
              (laws.routed table r w s (routes-unambiguous codec P S C metrics) found)
            ∙ (find_route-All (KeepsTopic P S C) table r.method r.path (routes-All r.method other)
                  found).kept
                r w s
      ]

  -- Over a chi library that does what it documents: a request with a method other than POST, to
  -- whatever path, the event stream included, leaves the topic as it is.
  pub reads_never_publish :
      (r : Request F) (w : ResponseWriter F) (s : Served (ApiWorld P S C))
      → r.method ≢ codes "POST"
      → (new_router chi (routes codec P S C metrics) r w s).0.world.api.producer
        ≡ s.world.api.producer
  reads_never_publish r w s other =
      let table = routes codec P S C metrics in
      let answered = ap (λ x. x.0.world.api.producer) (served chi laws table r w s) in
      elim (Bool-cases (r.method == codes "OPTIONS")) [
        | inl preflight ↦
            answered
            ∙ ap (λ (x : ApiWorld P S C × ResponseWriter F). x.0.api.producer)
                (untouched chi laws table r w s.world
                  (ground (arith, preflight, bytes_beq_iff r.method (codes "OPTIONS"))))
        | inr asks ↦
            answered
            ∙ ap (λ x. x.api.producer)
                (asked chi laws table r w s.world
                  (λ e. ground (arith, asks, e, bytes_beq_iff r.method (codes "OPTIONS")))).0
            ∙ routed_kept r (allowed_all chi laws table w) s.world other
      ]
