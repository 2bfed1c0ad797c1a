-- ===== src/Kafka/Journey.antt =====
-- From `Publish` of internal/kafka/producer.go to `Consume` of internal/kafka/consumer.go.
use llmwatch.Base.{
  ℕ, zero, suc, ◌≤◌, length, subst, Bytes, List, [], ◌∷◌, ◌++◌, append_assoc, append-nil, All, some,
  Error, Result, ok, err, ◌≡◌, refl, sym, ap, ◌∙◌, arith, Option-cases, Result-cases, inl, inr,
}
use llmwatch.Models.{LlmCallEvent}
use llmwatch.Kafka.Message.{Message, Codec, ReadsBack}
use llmwatch.Kafka.Producer.{Writer, event_message, kafka_publish}
use llmwatch.Kafka.Consumer.{Round, End, Run, consume}
use llmwatch.Kafka.Consumer.Delivery.{decoded, consume_to_end}

-- The library writes at least once: it sends a message again when an answer is lost, and a failure does
-- not tell that nothing was written. So a write that succeeds has appended copies of its message to the
-- topic, at least one, and a write that fails any number, by the time it returns; the broker may fill in
-- all but the value.
pub record IsWriter (W : Writer) (topic : W.State → List Message) : Type 0 where
  pub written :
      (m : Message) (s : W.State)
      → (W.write m s).1 ≡ ok tt
      → (ms : List Message) × (topic (W.write m s).0 ≡ topic s ++ ms)
        × All (λ d. d.value ≡ m.value) ms
        × (1 ≤ length ms)
  pub unwritten :
      (m : Message) (s : W.State) {x : Error}
      → (W.write m s).1 ≡ err x
      → (ms : List Message) × (topic (W.write m s).0 ≡ topic s ++ ms)
        × All (λ d. d.value ≡ m.value) ms

abbrev pub repeat : {A : Type 0} → ℕ → A → List A
repeat zero x = []
repeat (suc n) x = x ∷ repeat n x

-- The rounds in which a broker delivers messages and every commit succeeds.
abbrev pub deliveries : List Message → List Round
deliveries [] = []
deliveries (m ∷ ms) = record { message = m; commit = ok tt } ∷ deliveries ms

deliveries-append : (ms ns : List Message) → deliveries (ms ++ ns) ≡ deliveries ms ++ deliveries ns
deliveries-append [] ns = refl
deliveries-append (m ∷ ms) ns =
    ap (λ ds. record { message = m; commit = ok tt } ∷ ds) (deliveries-append ms ns)

pub deliveries-All : (ms : List Message) → All (λ d. d.commit ≡ ok tt) (deliveries ms)
deliveries-All [] = tt
deliveries-All (m ∷ ms) = (refl, deliveries-All ms)

module _ {F : Type 0} (c : Codec F) where
  decoded-append : (ds es : List Round) → decoded c (ds ++ es) ≡ decoded c ds ++ decoded c es
  decoded-append [] es = refl
  decoded-append (d ∷ ds) es = ground (arith, decoded-append ds es)

  -- The events that are in the messages of a topic.
  abbrev pub carried : List Message → List (LlmCallEvent F)
  carried ms = decoded c (deliveries ms)

  carried-append : (ms ns : List Message) → carried (ms ++ ns) ≡ carried ms ++ carried ns
  carried-append ms ns =
      ap (decoded c) (deliveries-append ms ns) ∙ decoded-append (deliveries ms) (deliveries ns)

  -- Copies of a message carry copies of its event.
  carried_copies :
      (e : LlmCallEvent F) (payload : Bytes) (ms : List Message)
      → c.unmarshal payload ≡ some e
      → All (λ d. d.value ≡ payload) ms
      → carried ms ≡ repeat (length ms) e
  carried_copies e payload [] h same = refl
  carried_copies e payload (m ∷ ms) h (same, sames) =
      ground (arith, ap c.unmarshal same ∙ h, carried_copies e payload ms h sames)

  module _ (W : Writer) where
    -- Publishing event after event; a failure is left to the caller.
    abbrev pub publish_all : List (LlmCallEvent F) → W.State → W.State
    publish_all [] s = s
    publish_all (e ∷ es) s = publish_all es (kafka_publish c W e s).0

    -- A list holds, in order, copies of each event, at least one of each that is published with success.
    abbrev pub IsDelivered : List (LlmCallEvent F) → W.State → List (LlmCallEvent F) → Type 0
    IsDelivered [] s handled = handled ≡ []
    IsDelivered (e ∷ es) s handled =
        (n : ℕ) × (rest : List (LlmCallEvent F)) × (handled ≡ repeat n e ++ rest)
        × ((kafka_publish c W e s).1 ≡ ok tt → 1 ≤ n)
        × IsDelivered es (kafka_publish c W e s).0 rest

    module _ (topic : W.State → List Message) (laws : IsWriter W topic) where
      -- A publication that succeeds has marshalled the event and written its message.
      published_parts :
          (e : LlmCallEvent F) (s : W.State)
          → (kafka_publish c W e s).1 ≡ ok tt
          → (payload : Bytes) × (c.marshal e ≡ some payload)
            × ((W.write (event_message e payload) s).1 ≡ ok tt)
            × ((kafka_publish c W e s).0 ≡ (W.write (event_message e payload) s).0)
      unfolding kafka_publish
      published_parts e s done = elim (Option-cases (c.marshal e)) [
        | inl bad ↦ absurd (ground arith)
        | inr (payload, good) ↦ (payload, good, ground arith, ground arith)
      ]

      published :
          (e : LlmCallEvent F) (s : W.State)
          → ReadsBack c e
          → (kafka_publish c W e s).1 ≡ ok tt
          → (n : ℕ) × (carried (topic (kafka_publish c W e s).0) ≡ carried (topic s) ++ repeat n e)
            × (1 ≤ n)
      published e s back done =
          let (payload, good, written, same) = published_parts e s done in
          let (ms, added, copies, some_copy) = laws.written (event_message e payload) s written in
          (
            length ms,
            ap (λ w. carried (topic w)) same
                ∙ ap carried added
                ∙ carried-append (topic s) ms
                ∙ ap (λ es. carried (topic s) ++ es)
                    (carried_copies e payload ms (back payload good)
                      (unfold event_message in copies)),
            some_copy,
          )

      unpublished :
          (e : LlmCallEvent F) (s : W.State) {x : Error}
          → ReadsBack c e
          → (kafka_publish c W e s).1 ≡ err x
          → (n : ℕ) × (carried (topic (kafka_publish c W e s).0) ≡ carried (topic s) ++ repeat n e)
      unfolding kafka_publish event_message
      unpublished e s back failed = elim (Option-cases (c.marshal e)) [
        | inl bad ↦ (0, rw (bad, kafka_publish) (sym (append-nil (carried (topic s)))))
        | inr (payload, good) ↦ elim (Result-cases (W.write (event_message e payload) s).1) [
          | inl (_, fine) ↦ absurd (ground (arith, good, fine, failed))
          | inr (y, refused) ↦
              let (ms, added, copies) = laws.unwritten (event_message e payload) s refused in
              let same : (kafka_publish c W e s).0 ≡ (W.write (event_message e payload) s).0 =
                ground (arith, good, refused) in
              (
                length ms,
                ap (λ w. carried (topic w)) same
                    ∙ ap carried added
                    ∙ carried-append (topic s) ms
                    ∙ ap (λ es. carried (topic s) ++ es)
                        (carried_copies e payload ms (back payload good) copies),
              )
        ]
      ]

      delivered_one :
          (e : LlmCallEvent F) (s : W.State)
          → ReadsBack c e
          → (n : ℕ) × (carried (topic (kafka_publish c W e s).0) ≡ carried (topic s) ++ repeat n e)
            × ((kafka_publish c W e s).1 ≡ ok tt → 1 ≤ n)
      delivered_one e s back = elim (Result-cases (kafka_publish c W e s).1) [
        | inl (_, done) ↦
            let (n, added, some_copy) = published e s back done in (n, added, λ _. some_copy)
        | inr (x, failed) ↦
            let (n, added) = unpublished e s back failed in
            (n, added, λ done. absurd (ground (arith, failed, done)))
      ]

      pub publish_all-IsDelivered :
          (es : List (LlmCallEvent F)) (s : W.State)
          → All (ReadsBack c) es
          → (hs : List (LlmCallEvent F)) × (carried (topic (publish_all es s))
              ≡ carried (topic s) ++ hs)
            × IsDelivered es s hs
      publish_all-IsDelivered [] s _ = ([], sym (append-nil (carried (topic s))), refl)
      publish_all-IsDelivered (e ∷ es) s (back, backs) =
          let next = (kafka_publish c W e s).0 in
          let (n, added, some_copy) = delivered_one e s back in
          let (rest, carried_rest, delivered) = publish_all-IsDelivered es next backs in
          (
            repeat n e ++ rest,
            carried_rest
                ∙ ap (λ ms. ms ++ rest) added
                ∙ append_assoc (carried (topic s)) (repeat n e) rest,
            (n, rest, refl, some_copy, delivered),
          )

      -- What is published to an empty topic of one partition, by a writer that writes at least
      -- once and has no write left open when it returns, and is then consumed with every commit
      -- successful, reaches the handler, if the codec reads back what it writes: the handler is
      -- called, in order, with copies of the published events, at least one of each whose
      -- publication succeeds and any number of each whose publication fails, and with nothing
      -- else.
      pub consume-publish_all :
          {H : Type 0} (handler : LlmCallEvent F → H → H × Result (Unit {0})) (end : End)
          (state : H) (es : List (LlmCallEvent F)) (s : W.State)
          → topic s ≡ []
          → All (ReadsBack c) es
          → let start : Run F H = record { state = state; committed = []; handled = [] } in
            IsDelivered es s
              (consume c handler (deliveries (topic (publish_all es s))) end start).0.handled
      consume-publish_all handler end state es s empty backs =
          let (hs, carried_all, delivered) = publish_all-IsDelivered es s backs in
          let handled =
            ap (λ r. r.0.handled)
              (consume_to_end c handler (deliveries (topic (publish_all es s))) end
                (record { state = state; committed = []; handled = [] })
                (deliveries-All (topic (publish_all es s)))).0
            ∙ carried_all
            ∙ ap (λ ms. carried ms ++ hs) empty in
          subst (IsDelivered es s) (sym handled) delivered
