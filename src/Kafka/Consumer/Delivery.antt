-- ===== src/Kafka/Consumer/Delivery.antt =====
-- What the loop of `Consume` in internal/kafka/consumer.go delivers and commits.
use llmwatch.Base.{
  codes, List, [], ◌∷◌, ◌++◌, append_assoc, append-nil, map, All, none, some, Option-cases, inl,
  inr, ◌⊎◌, Error, Result, ok, err, wrapped, ◌≡◌, refl, ap, ◌∙◌, arith,
}
use llmwatch.Models.{LlmCallEvent}
use llmwatch.Kafka.Message.{Message, Codec}
use llmwatch.Kafka.Consumer.{Round, End, cancelled, fetch_failed, Run, commit, call, go_on, consume}

-- How the loop answers the end of the messages.
abbrev pub outcome : End → Result (Unit {0})
outcome cancelled = ok tt
outcome (fetch_failed x) = err (wrapped (codes "kafka consumer: fetch message") x)

abbrev commit_error : Error → Result (Unit {0})
commit_error x = err (wrapped (codes "kafka consumer: commit messages") x)

-- The messages of the rounds whose commit succeeds.
abbrev pub acknowledged : List Round → List Message
acknowledged [] = []
acknowledged (d ∷ ds) = elim d.commit [
  | ok _ ↦ d.message ∷ acknowledged ds
  | err _ ↦ acknowledged ds
]

-- The events in the messages that can be read.
abbrev pub decoded : {F : Type 0} → Codec F → List Round → List (LlmCallEvent F)
decoded c [] = []
decoded c (d ∷ ds) = elim (c.unmarshal d.message.value) [
  | none ↦ decoded c ds
  | some e ↦ e ∷ decoded c ds
]

-- The handler's state after the events.
abbrev pub replay :
    {F H : Type 0} → (LlmCallEvent F → H → H × Result (Unit {0})) → List (LlmCallEvent F) → H → H
replay handler [] s = s
replay handler (e ∷ es) s = replay handler es (handler e s).0

module _ {F H : Type 0} (c : Codec F) (handler : LlmCallEvent F → H → H × Result (Unit {0})) where
  -- The run after the rounds.
  abbrev pub after : List Round → Run F H → Run F H
  after ds r = record {
    state = replay handler (decoded c ds) r.state;
    committed = r.committed ++ acknowledged ds;
    handled = r.handled ++ decoded c ds;
  }

  after-nil : (r : Run F H) → r ≡ after [] r
  after-nil r = simp append-nil

  after-cons_bad :
      (d : Round) (ds : List Round) (r : Run F H)
      → c.unmarshal d.message.value ≡ none
      → after ds (commit d r) ≡ after (d ∷ ds) r
  unfolding commit
  after-cons_bad d ds r e =
      ground (arith, append_assoc r.committed (d.message ∷ []) (acknowledged ds))

  after-cons_good :
      (d : Round) (ds : List Round) (r : Run F H) (e : LlmCallEvent F)
      → c.unmarshal d.message.value ≡ some e
      → after ds (commit d (call handler e r).0) ≡ after (d ∷ ds) r
  unfolding commit call
  after-cons_good d ds r e h = ground (
    arith,
    append_assoc r.committed (d.message ∷ []) (acknowledged ds),
    append_assoc r.handled (e ∷ []) (decoded c ds),
  )

  -- If every commit succeeds, the consume loop runs to the end of the messages, commits each of
  -- them in order, calls the handler with exactly the events that can be read, in order and
  -- each once, whether or not the handler fails, and answers nil when cancelled and the fetch
  -- error otherwise.
  pub consume_to_end :
      (ds : List Round) (end : End) (r : Run F H)
      → All (λ d. d.commit ≡ ok tt) ds
      → (consume c handler ds end r ≡ (after ds r, outcome end))
        × (acknowledged ds ≡ map (λ d. d.message) ds)
  unfolding consume go_on
  consume_to_end [] cancelled r h = (ap (λ x. (x, ok tt)) (after-nil r), refl)
  consume_to_end [] (fetch_failed x) r h =
      (ap (λ y. (y, outcome (fetch_failed x))) (after-nil r), refl)
  consume_to_end (d ∷ ds) end r (h, hs) = elim (Option-cases (c.unmarshal d.message.value)) [
    | inl bad ↦ ground (arith, consume_to_end ds end (commit d r) hs, after-cons_bad d ds r bad)
    | inr (e, good) ↦ ground (
      arith,
      consume_to_end ds end (commit d (call handler e r).0) hs,
      after-cons_good d ds r e good,
    )
  ]

  -- What holds of a run of the loop: the rounds served, the rounds left, and how it ended.
  pub record IsServed (ds : List Round) (end : End) (r : Run F H)
      (result : Run F H × Result (Unit {0})) : Type 0 where
    pub served : List Round
    pub rest : List Round
    pub parts : ds ≡ served ++ rest
    pub run : result.0 ≡ after served r
    pub verdict :
        ((rest ≡ []) × (result.1 ≡ outcome end)) ⊎ ((x : Error) × (result.1 ≡ commit_error x))

  more_rounds :
      (d : Round) (ds : List Round) (end : End) (r r' : Run F H)
      (result : Run F H × Result (Unit {0}))
      → ((served : List Round) → after served r' ≡ after (d ∷ served) r)
      → IsServed ds end r' result
      → IsServed (d ∷ ds) end r result
  more_rounds d ds end r r' result step s = record {
    served = d ∷ s.served;
    rest = s.rest;
    parts = ap (λ xs. d ∷ xs) s.parts;
    run = s.run ∙ step s.served;
    verdict = s.verdict;
  }

  call_served :
      (d : Round) (r : Run F H) (e : LlmCallEvent F) {x : Error}
      → c.unmarshal d.message.value ≡ some e
      → d.commit ≡ err x
      → (call handler e r).0 ≡ after (d ∷ []) r
  unfolding call
  call_served d r e good stuck = ground (arith, append-nil r.committed)

  go_on-IsServed :
      (d : Round) (ds : List Round) (end : End) (r : Run F H) (e : LlmCallEvent F)
      (result committed : Result (Unit {0}))
      → c.unmarshal d.message.value ≡ some e
      → d.commit ≡ committed
      → IsServed ds end
          (commit d (call handler e r).0)
          (consume c handler ds end (commit d (call handler e r).0))
      → IsServed (d ∷ ds) end r (
          go_on result committed
            (call handler e r).0
            (consume c handler ds end (commit d (call handler e r).0)))
  unfolding go_on
  go_on-IsServed d ds end r e (err _) committed good same later =
      more_rounds d ds end r _ _ (λ s. after-cons_good d s r e good) later
  go_on-IsServed d ds end r e (ok _) (ok _) good same later =
      more_rounds d ds end r _ _ (λ s. after-cons_good d s r e good) later
  go_on-IsServed d ds end r e (ok _) (err x) good same later = record {
    served = d ∷ [];
    rest = ds;
    parts = refl;
    run = call_served d r e good same;
    verdict = inr (x, refl);
  }

  -- However commits fail, the loop has served some first part of the rounds when it returns:
  -- the handler was called with exactly the readable events in it, the committed messages are
  -- those of its rounds whose commit succeeded, and either nothing is left or it returns the
  -- failure of a commit.
  pub consume-IsServed :
      (ds : List Round) (end : End) (r : Run F H) → IsServed ds end r (consume c handler ds end r)
  unfolding consume
  consume-IsServed [] cancelled r = record {
    served = [];
    rest = [];
    parts = refl;
    run = after-nil r;
    verdict = inl (refl, refl);
  }
  consume-IsServed [] (fetch_failed x) r = record {
    served = [];
    rest = [];
    parts = refl;
    run = after-nil r;
    verdict = inl (refl, refl);
  }
  consume-IsServed (d ∷ ds) end r = elim (Option-cases (c.unmarshal d.message.value)) [
    | inl bad ↦
        rw (bad, consume)
          (more_rounds d ds end r (commit d r) _ (λ s. after-cons_bad d s r bad)
            (consume-IsServed ds end (commit d r)))
    | inr (e, good) ↦
        rw (good, consume)
          (go_on-IsServed d ds end r e _ _ good refl
            (consume-IsServed ds end (commit d (call handler e r).0)))
  ]
