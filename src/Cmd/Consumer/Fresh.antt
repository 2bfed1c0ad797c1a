-- ===== src/Cmd/Consumer/Fresh.antt =====
-- Events whose ids are new, in the table of calls and among the deliveries of cmd/consumer/main.go.
use llmwatch.Base.{
  ℕ, suc, ◌+◌, Bytes, List, [], ◌∷◌, ◌++◌, All, Bool, true, false, ◌==◌, ◌||◌, bytes_eq,
  bytes_beq_iff, int_eq, ℤ, Float64, ok, ◌≡◌, ◌≢◌, refl, ap, ◌∙◌, arith, pos, zero, Bool-cases,
  Result-cases, inl, inr,
}
use llmwatch.Models.{LlmCallEvent, normalize, validate}
use llmwatch.Models.Normalize.{normalize_twice}
use llmwatch.Kafka.Message.{Codec}
use llmwatch.Kafka.Producer.{Writer, kafka_publish}
use llmwatch.Kafka.Journey.{repeat, IsDelivered}
use llmwatch.Api.Ingest.Sent.{valid_events}
use llmwatch.Cmd.Consumer.Stored.{first_deliveries}

known_already :
    (known : Bytes → Bool) (id : Bytes)
    → known id ≡ true
    → (j : Bytes) → (j == id || known j) ≡ known j
known_already known id h j = elim (Bool-cases (j == id)) [
  | inl same ↦ ground (arith, same, h, ap known ((bytes_beq_iff j id).0 same))
  | inr other ↦ ground (arith, other)
]

module _ {F : Type 0} where
  -- No id is known, and no two are the same.
  abbrev pub Fresh : (Bytes → Bool) → List (LlmCallEvent F) → Type 0
  Fresh known [] = Unit
  Fresh known (e ∷ es) = (known e.event_id ≡ false) × Fresh (λ j. j == e.event_id || known j) es

module _ {F : Type 0} (codec : Codec F) (W : Writer) where
  -- Publishing event after event, every time with success.
  abbrev pub AllSent : List (LlmCallEvent F) → W.State → Type 0
  AllSent [] s = Unit
  AllSent (e ∷ es) s =
      ((kafka_publish codec W e s).1 ≡ ok tt) × AllSent es (kafka_publish codec W e s).0

module _ {F : Type 0} ⦃fl : Float64 F⦄ where
  -- Valid, and left as it is by Normalize.
  pub record IsSettled (e : LlmCallEvent F) : Type 0 where
    pub valid : validate e ≡ ok tt
    pub normal : (new_id : Bytes) (now : ℤ) → normalize new_id now e ≡ e

  -- The events that a batch publishes are settled.
  pub valid_events-All :
      (new_id : ℕ → Bytes) (now : ℕ → ℤ) (i : ℕ) (es : List (LlmCallEvent F))
      → ((n : ℕ) → new_id n ≢ [])
      → ((n : ℕ) → now n ≢ pos 0)
      → All IsSettled (valid_events new_id now i es)
  valid_events-All new_id now i [] named timed = tt
  valid_events-All new_id now i (e ∷ es) named timed =
      let rest = valid_events-All new_id now (suc i) es named timed in
      elim (Result-cases (validate (normalize (new_id i) (now i) e))) [
        | inr (x, bad) ↦ rw (bad, valid_events) rest
        | inl (_, good) ↦
            rw (good, valid_events)
              (
                record {
                  valid = good;
                  normal = λ id t. normalize_twice (new_id i) id (now i) t e (named i) (timed i);
                },
                rest,
              )
      ]

  first_deliveries-cons :
      (new_id : ℕ → Bytes) (now : ℕ → ℤ) (n : ℕ) (known : Bytes → Bool) (event : LlmCallEvent F)
      (es : List (LlmCallEvent F))
      → let e = normalize (new_id n) (now n) event in
        validate e ≡ ok tt
        → known e.event_id ≡ false
        → first_deliveries new_id now n known (event ∷ es)
          ≡ e ∷ first_deliveries new_id now (n + 1) (λ j. j == e.event_id || known j) es
  first_deliveries-cons new_id now n known event es good new = rw (good, first_deliveries, new) refl

  first_deliveries_known :
      (new_id : ℕ → Bytes) (now : ℕ → ℤ) (n : ℕ) (known : Bytes → Bool) (event : LlmCallEvent F)
      (es : List (LlmCallEvent F))
      → let e = normalize (new_id n) (now n) event in
        validate e ≡ ok tt
        → known e.event_id ≡ true
        → first_deliveries new_id now n known (event ∷ es)
          ≡ first_deliveries new_id now (n + 1) known es
  first_deliveries_known new_id now n known event es good there =
      let e = normalize (new_id n) (now n) event in
      rw (good, first_deliveries, there)
        (ap (λ k. first_deliveries new_id now (n + 1) k es)
          (λ i j. known_already known e.event_id there j i))

  -- Copies of an event whose id is known are not stored.
  first_deliveries-repeat :
      (new_id : ℕ → Bytes) (now : ℕ → ℤ) (n k : ℕ) (known : Bytes → Bool) (e : LlmCallEvent F)
      (rest : List (LlmCallEvent F))
      → IsSettled e
      → known e.event_id ≡ true
      → (m : ℕ) × (first_deliveries new_id now n known (repeat k e ++ rest)
          ≡ first_deliveries new_id now m known rest)
  first_deliveries-repeat new_id now n zero known e rest settled there = (n, refl)
  first_deliveries-repeat new_id now n (suc k) known e rest settled there =
      let (m, later) = first_deliveries-repeat new_id now (n + 1) k known e rest settled there in
      let same = settled.normal (new_id n) (now n) in
      (
        m,
        first_deliveries_known new_id now n known e (repeat k e ++ rest)
              (ap validate same ∙ settled.valid)
              (ap (λ (x : LlmCallEvent F). known x.event_id) same ∙ there)
            ∙ later,
      )

  -- Settled events with new ids are all stored as they are, however many copies are delivered.
  pub first_deliveries-IsDelivered :
      (codec : Codec F) (W : Writer) (new_id : ℕ → Bytes) (now : ℕ → ℤ) (n : ℕ)
      (known : Bytes → Bool) (es : List (LlmCallEvent F)) (s : W.State) (hs : List (LlmCallEvent F))
      → All IsSettled es
      → Fresh known es
      → AllSent codec W es s
      → IsDelivered codec W es s hs
      → first_deliveries new_id now n known hs ≡ es
  first_deliveries-IsDelivered codec W new_id now n known [] s hs settled fresh sent none_ =
      ap (first_deliveries new_id now n known) none_
  first_deliveries-IsDelivered codec W new_id now n known (e ∷ es) s hs (here, there) (new, fresh)
        (sent, all_sent) (zero, rest, same, some_copy, later) =
      absurd (omega (arith, some_copy sent))
  first_deliveries-IsDelivered codec W new_id now n known (e ∷ es) s hs (here, there) (new, fresh)
        (sent, all_sent) (suc k, rest, same, some_copy, later) =
      let known' : Bytes → Bool = λ j. j == e.event_id || known j in
      let (m, skipped_all) =
        first_deliveries-repeat new_id now (n + 1) k known' e rest here
          (ground (arith, bytes_beq_iff e.event_id e.event_id)) in
      ap (first_deliveries new_id now n known) same
      ∙ first_deliveries-cons new_id now n known e (repeat k e ++ rest)
          (ap validate (here.normal (new_id n) (now n)) ∙ here.valid)
          (ap (λ x. known x.event_id) (here.normal (new_id n) (now n)) ∙ new)
      ∙ ap
          (λ (x : LlmCallEvent F).
            x
            ∷ first_deliveries new_id now (n + 1) (λ j. j == x.event_id || known j)
                (repeat k e ++ rest))
          (here.normal (new_id n) (now n))
      ∙ ap (λ fs. e ∷ fs)
          (skipped_all
            ∙ first_deliveries-IsDelivered codec W new_id now m known' es
                (kafka_publish codec W e s).0 rest there fresh all_sent later)
