-- ===== src/Cmd/Simulator/Accepted.antt =====
-- An event of cmd/simulator/main.go on its way through the router of the API.
use llmwatch.Base.{
  ℕ, codes, List, [], ◌∷◌, ◌++◌, ℤ, pos, Float64, ok, ◌≡◌, ◌≢◌, refl, sym, ap, subst, ◌∙◌, arith,
}
use llmwatch.Models.{LlmCallEvent, normalize, IsValid}
use llmwatch.Db.Store.{Store}
use llmwatch.Redis.Cache.{Cache}
use llmwatch.Kafka.Message.{Codec}
use llmwatch.Kafka.Producer.{EventProducer}
use llmwatch.Api.Ingest.{ApiState, handle_ingest_event}
use llmwatch.Api.Ingest.Batch.{accepted_iff}
use llmwatch.Api.Middleware.{Request, ResponseWriter, Served}
use llmwatch.Api.Router.{ApiWorld, routes, Chi, new_router}
use llmwatch.Api.Router.Dispatch.{IsChi}
use llmwatch.Api.Router.Answers.{post_event_served}
use llmwatch.Cmd.Simulator.{Draws, generate_event, send_event}
use llmwatch.Cmd.Simulator.Generated.{generate_event-IsValid}

answered_well : (status : ℕ) → status ≡ 202 → send_event (ok tt) (ok status) ≡ ok tt
unfolding send_event
answered_well status e = ground (arith, e)

module _ {F : Type 0} ⦃fl : Float64 F⦄ (codec : Codec F) (P : EventProducer F) where
  -- The handler on an event that is valid and that Normalize does not change.
  handled :
      (new_id : List ℕ) (now : ℤ) (e : LlmCallEvent F) (s : ApiState P)
      → IsValid e
      → normalize new_id now e ≡ e
      → (P.publish e s.producer).1 ≡ ok tt
      → (handle_ingest_event codec P new_id now (ok e) s).1.status ≡ 202
  handled new_id now e s valid normal taken = (accepted_iff codec P new_id now (ok e) s).1 (
    e,
    refl,
    subst IsValid (sym normal) valid,
    ap (λ x. (P.publish x s.producer).1) normal ∙ taken,
  )

module _ {F : Type 0} ⦃fl : Float64 F⦄ (codec : Codec F) (P : EventProducer F) (S : Store F)
    (C : Cache F) (chi : Chi F) (laws : IsChi chi)
    (metrics : Request F → ResponseWriter F → ResponseWriter F) where
  -- Over a chi library that does what it documents: when the simulator posts what it has made,
  -- with an id and a clock that are not zero, the body is decoded to that event, no status has
  -- been written and the producer takes the event, the router answers with 202, the simulator
  -- takes this for a success, and the request is counted once under 202.
  pub simulated_accepted :
      (d : Draws F) (r : Request F) (w : ResponseWriter F) (s : Served (ApiWorld P S C))
      → d.new_id ≢ []
      → d.now ≢ pos 0
      → r.method ≡ codes "POST"
      → r.path ≡ codes "/api/v1/events"
      → r.event ≡ ok (generate_event d)
      → w.status ≡ 0
      → (P.publish (generate_event d) s.world.api.producer).1 ≡ ok tt
      → let x = new_router chi (routes codec P S C metrics) r w s in
        (x.1.status ≡ 202)
        × (send_event (ok tt) (ok x.1.status) ≡ ok tt)
        × (x.0.counters.requests
            ≡ s.counters.requests ++ (r.method, r.path, chi.status_text 202) ∷ [])
  simulated_accepted d r w s named timed posts events body fresh taken =
      let e = generate_event d in
      let (valid, _, _, _, normal) = generate_event-IsValid d (r.new_id 0) (r.now 0) named timed in
      let (_, status, counted) =
        post_event_served codec P S C chi laws metrics r w s posts events fresh in
      let accepted =
        ap (λ b. (handle_ingest_event codec P (r.new_id 0) (r.now 0) b s.world.api).1.status) body
        ∙ handled codec P (r.new_id 0) (r.now 0) e s.world.api valid normal taken in
      (
        status ∙ accepted,
        answered_well _ (status ∙ accepted),
        counted
            ∙ ap (λ n. s.counters.requests ++ (r.method, r.path, chi.status_text n) ∷ []) accepted,
      )
