-- ===== src/Api/Ingest/Batch.antt =====
-- What the ingestion handlers of internal/api/handlers.go accept, publish and answer.
use llmwatch.Base.{
  ok_injective, ◌++◌, append-nil, append_assoc, ◌==◌, nat_eq, if◌then◌else◌, ℕ, suc, ◌+◌, ◌≤◌,
  Bytes, List, [], ◌∷◌, length, length-append, ltb, ℤ, Float64, Result, ok, err, ◌≡◌, ◌↔◌, refl,
  sym, ap, subst, false, ◌∙◌, arith, Result-cases, inl, inr,
}
use llmwatch.Models.{LlmCallEvent, normalize, validate, IsValid}
use llmwatch.Models.Validate.{validate_iff}
use llmwatch.Kafka.Message.{Codec}
use llmwatch.Kafka.Producer.{EventProducer}
use llmwatch.Api.Response.{Failure, invalid, unpublished, Response, Body, respond}
use llmwatch.Api.Ingest.{
  ApiState, Progress, ingest, ingest_one, ingest_all, handle_ingest_event, handle_ingest_batch,
}

not-ltb : (a b : ℕ) → a ≤ b → ltb b a ≡ false
not-ltb a b h = ground arith

module _ {F : Type 0} ⦃fl : Float64 F⦄ (codec : Codec F) (P : EventProducer F) where
  ingest_status :
      (e : LlmCallEvent F) (s : ApiState P)
      → ((ingest codec P e s).1.status ≡ 202)
        ↔ ((validate e ≡ ok tt) × ((P.publish e s.producer).1 ≡ ok tt))
  unfolding ingest
  ingest_status e s = ground arith

  -- A post is answered with 202 exactly when its body is an event that is valid once its
  -- defaults are filled in, and the producer takes it.
  pub accepted_iff :
      (new_id : Bytes) (now : ℤ) (request : Result (LlmCallEvent F)) (s : ApiState P)
      → ((handle_ingest_event codec P new_id now request s).1.status ≡ 202) ↔ (
          (event : LlmCallEvent F) × (request ≡ ok event)
          × IsValid (normalize new_id now event)
          × ((P.publish (normalize new_id now event) s.producer).1 ≡ ok tt))
  unfolding handle_ingest_event
  accepted_iff new_id now (err x) s = (λ h. absurd (omega arith), λ h. cc (h.1))
  accepted_iff new_id now (ok event) s =
      let status = ingest_status (normalize new_id now event) s in
      (
        λ h. (event, refl, (validate_iff _).0 (status.0 h).0, (status.0 h).1),
        λ (other, same, valid, sent).
            let e = ok_injective same in
            status.1 (
              (validate_iff _).1 (subst (λ y. IsValid (normalize new_id now y)) (sym e) valid),
              subst (λ y. (P.publish (normalize new_id now y) s.producer).1 ≡ ok tt) (sym e) sent,
            ),
      )

  -- One post after another, with the ids and times that Normalize would fill in from the index `i`.
  abbrev pub post_all : (ℕ → Bytes) → (ℕ → ℤ) → ℕ → List (LlmCallEvent F) → ApiState P → ApiState P
  post_all new_id now i [] s = s
  post_all new_id now i (e ∷ es) s =
      post_all new_id now (suc i) es (handle_ingest_event codec P (new_id i) (now i) (ok e) s).0

  ingest_one-state :
      (e : LlmCallEvent F) (b : Progress codec P)
      → (ingest_one codec P e b).state ≡ (ingest codec P e b.state).0
  unfolding ingest_one ingest
  ingest_one-state e b = ground arith

  -- 1 for an answer with the status 202, and 1 for any other.
  abbrev pub taken : Response F → ℕ
  taken r = if r.status == 202 then 1 else 0

  abbrev pub refused : Response F → ℕ
  refused r = if r.status == 202 then 0 else 1

  -- What a batch says of an event that a post would answer so.
  abbrev failure_of : Bytes → Body F → List Failure
  failure_of id (Body.error_detail x) = invalid id x ∷ []
  failure_of id (Body.error_message text) = unpublished id ∷ []
  failure_of id _ = []

  -- A number for each of the posts' answers, added up.
  abbrev pub count_posts :
      (Response F → ℕ) → (ℕ → Bytes) → (ℕ → ℤ) → ℕ → List (LlmCallEvent F) → ApiState P → ℕ
  count_posts number new_id now i [] s = 0
  count_posts number new_id now i (e ∷ es) s =
      let (s', r) = handle_ingest_event codec P (new_id i) (now i) (ok e) s in
      number r + count_posts number new_id now (suc i) es s'

  -- What the posts' answers say of the events, by the ids that Normalize leaves them.
  abbrev pub post_failures :
      (ℕ → Bytes) → (ℕ → ℤ) → ℕ → List (LlmCallEvent F) → ApiState P → List Failure
  post_failures new_id now i [] s = []
  post_failures new_id now i (e ∷ es) s =
      let (s', r) = handle_ingest_event codec P (new_id i) (now i) (ok e) s in
      failure_of (normalize (new_id i) (now i) e).event_id r.body
      ++ post_failures new_id now (suc i) es s'

  ingest_one-records :
      (e : LlmCallEvent F) (b : Progress codec P)
      → let b' = ingest_one codec P e b in
        let r = (ingest codec P e b.state).1 in
        (length b'.accepted ≡ length b.accepted + taken r)
        × (length b'.failed ≡ length b.failed + refused r)
        × (b'.failed ≡ b.failed ++ failure_of e.event_id r.body)
  unfolding ingest_one ingest
  ingest_one-records e b = elim (Result-cases (validate e)) [
    | inl (_, valid) ↦ elim (Result-cases (P.publish e b.state.producer).1) [
      | inl (_, sent) ↦
          ground (arith, length-append b.accepted (e.event_id ∷ []), append-nil b.failed)
      | inr (x, lost) ↦ ground (arith, length-append b.failed (unpublished e.event_id ∷ []))
    ]
    | inr (x, bad) ↦ ground (arith, length-append b.failed (invalid e.event_id x ∷ []))
  ]

  ingest_all-records :
      (new_id : ℕ → Bytes) (now : ℕ → ℤ) (i : ℕ) (es : List (LlmCallEvent F)) (b : Progress codec P)
      → let b' = ingest_all codec P new_id now i es b in
        (length b'.accepted ≡ length b.accepted + count_posts taken new_id now i es b.state)
        × (length b'.failed ≡ length b.failed + count_posts refused new_id now i es b.state)
        × (b'.failed ≡ b.failed ++ post_failures new_id now i es b.state)
  unfolding ingest_all handle_ingest_event
  ingest_all-records new_id now i [] b = (omega arith, omega arith, sym (append-nil b.failed))
  ingest_all-records new_id now i (e ∷ es) b =
      let next = normalize (new_id i) (now i) e in
      let s' = (ingest codec P next b.state).0 in
      let (taken_now, refused_now, said) = ingest_one-records next b in
      let (taken_later, refused_later, said_later) =
        ingest_all-records new_id now (suc i) es (ingest_one codec P next b) in
      let same = ingest_one-state next b in
      (
        omega (arith, taken_later, ap (count_posts taken new_id now (suc i) es) same, taken_now),
        omega (
          arith,
          refused_later,
          ap (count_posts refused new_id now (suc i) es) same,
          refused_now,
        ),
        said_later
            ∙ ap (λ s. (ingest_one codec P next b).failed ++ post_failures new_id now (suc i) es s)
                same
            ∙ ap (λ fs. fs ++ post_failures new_id now (suc i) es s') said
            ∙ append_assoc b.failed (failure_of next.event_id (ingest codec P next b.state).1.body)
                (post_failures new_id now (suc i) es s'),
      )

  ingest_all-post_all :
      (new_id : ℕ → Bytes) (now : ℕ → ℤ) (i : ℕ) (es : List (LlmCallEvent F)) (b : Progress codec P)
      → (ingest_all codec P new_id now i es b).state ≡ post_all new_id now i es b.state
  unfolding ingest_all handle_ingest_event
  ingest_all-post_all new_id now i [] b = refl
  ingest_all-post_all new_id now i (e ∷ es) b =
      ingest_all-post_all new_id now (suc i) es _
      ∙ ap (post_all new_id now (suc i) es) (ingest_one-state (normalize (new_id i) (now i) e) b)

  -- A batch of at most 1000 events leaves the topic and the subscribers as posting its events
  -- one after another does. Its answer is 202 with the number of the posts that are answered
  -- with 202, the number of the others, and, in order, one detail for each of these: the id
  -- with the validation error for a post that is refused with one, the id alone for a post that
  -- could not be published.
  pub batch-post_all :
      (new_id : ℕ → Bytes) (now : ℕ → ℤ) (es : List (LlmCallEvent F)) (s : ApiState P)
      → length es ≤ 1000
      → handle_ingest_batch codec P new_id now (ok es) s ≡ (
        post_all new_id now 0 es s,
        respond 202 (
            Body.batch
              (count_posts taken new_id now 0 es s)
              (count_posts refused new_id now 0 es s)
              (post_failures new_id now 0 es s)),
      )
  unfolding handle_ingest_batch
  batch-post_all new_id now es s small =
      let start : Progress codec P = record { state = s; accepted = []; failed = [] } in
      let (accepted, failed, details) = ingest_all-records new_id now 0 es start in
      let a : length (ingest_all codec P new_id now 0 es start).accepted
          ≡ count_posts taken new_id now 0 es s =
        omega arith in
      let f : length (ingest_all codec P new_id now 0 es start).failed
          ≡ count_posts refused new_id now 0 es s =
        omega arith in
      rw (not-ltb (length es) 1000 small)
        (rw (ingest_all-post_all new_id now 0 es start) (rw a (rw f (rw details refl))))
