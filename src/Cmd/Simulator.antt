-- ===== src/Cmd/Simulator.antt =====
-- cmd/simulator/main.go: the events that the simulator makes, and its count of answers.
pub mod Generated
pub mod Accepted
use llmwatch.Base.{
  ℕ, suc, ◌+◌, ◌/◌, String, Bytes, codes, List, [], ◌∷◌, get_or, ℤ, pos, add64, ltb_ℤ, ltb,
  if◌then◌else◌, Float64, Error, Result, ok, err, wrapped,
}
use llmwatch.Models.{LlmCallEvent, openai, anthropic, gemini, success, error_status, calculate_cost}

-- `modelDef`
pub record ModelDef (F : Type 0) : Type 0 where
  pub provider : Bytes
  pub model : Bytes
  pub avg_latency_ms : ℕ
  pub jitter_ms : ℕ
  pub avg_input_tok : ℕ
  pub avg_output_tok : ℕ
  pub error_rate : F

-- What one call draws at random: rand.Intn(len(modelPool)), three times rand.NormFloat64(),
-- rand.Float64() and rand.Intn(len(errorMessages)); with the new id and the clock.
pub record Draws (F : Type 0) : Type 0 where
  pub model_index : ℕ
  pub latency_normal : F
  pub input_normal : F
  pub output_normal : F
  pub error_uniform : F
  pub message_index : ℕ
  pub new_id : Bytes
  pub now : ℤ

abbrev pub error_messages : List Bytes
error_messages =
    codes "rate_limit_exceeded: too many requests"
    ∷ codes "context_length_exceeded: prompt too long"
    ∷ codes "server_error: internal server error from provider"
    ∷ codes "timeout: request timed out after 30s"
    ∷ codes "invalid_api_key: authentication failed"
    ∷ codes "model_overloaded: model is at capacity"
    ∷ codes "content_policy_violation: request blocked by content filter"
    ∷ []

-- `if x < low { x = low }`
abbrev pub at_least : ℕ → ℤ → ℤ
at_least low x = if ltb_ℤ x (pos low) then pos low else x

module _ {F : Type 0} ⦃fl : Float64 F⦄ where
  abbrev pub model_def : Bytes → String → ℕ → ℕ → ℕ → ℕ → ℕ → ModelDef F
  model_def provider model latency jitter input output rate = record {
    provider = provider;
    model = codes model;
    avg_latency_ms = latency;
    jitter_ms = jitter;
    avg_input_tok = input;
    avg_output_tok = output;
    error_rate = fl.decimal rate 3;
  }

  abbrev pub model_pool : List (ModelDef F)
  model_pool =
      model_def openai "gpt-4o" 800 300 1200 800 20
      ∷ model_def openai "gpt-4o-mini" 350 150 900 500 10
      ∷ model_def openai "gpt-3.5-turbo" 200 100 600 300 15
      ∷ model_def anthropic "claude-3-5-sonnet-20241022" 1100 400 1500 900 20
      ∷ model_def anthropic "claude-3-haiku-20240307" 400 200 800 400 10
      ∷ model_def anthropic "claude-3-opus-20240229" 2000 600 2000 1200 30
      ∷ model_def gemini "gemini-2.0-flash" 250 100 700 400 10
      ∷ model_def gemini "gemini-1.5-pro" 900 300 1300 700 20
      ∷ []

  -- mean + int64(normal * float64(spread)), in int64.
  unfoldable pub around : ℕ → F → ℕ → ℤ
  around mean normal spread =
      add64 (pos mean) (fl.truncate (fl.fmul normal (fl.of_int (pos spread))))

  -- generateEvent behind the choice of the model.
  unfoldable pub event_for : ModelDef F → Draws F → LlmCallEvent F
  unfolding around
  event_for m d =
      let latency = at_least 50 (around m.avg_latency_ms d.latency_normal m.jitter_ms) in
      let input = at_least 10 (around m.avg_input_tok d.input_normal (m.avg_input_tok / 3)) in
      let output = at_least 5 (around m.avg_output_tok d.output_normal (m.avg_output_tok / 3)) in
      let fails = fl.flt d.error_uniform m.error_rate in
      record {
        event_id = d.new_id;
        provider = m.provider;
        model = m.model;
        latency_ms = latency;
        input_tokens = input;
        output_tokens = output;
        cost_usd = calculate_cost m.provider m.model input output;
        status = if fails then error_status else success;
        error_message = if fails then get_or error_messages d.message_index [] else [];
        timestamp = d.now;
      }

  -- An index beyond the pool, which rand.Intn does not return, reads the first model.
  unfoldable pub generate_event : Draws F → LlmCallEvent F
  unfolding event_for
  generate_event d =
      event_for (get_or model_pool d.model_index (model_def openai "gpt-4o" 800 300 1200 800 20)) d

-- `sendEvent` on what json.Marshal and the HTTP client answer: an error, or the status code.
unfoldable pub send_event : Result (Unit {0}) → Result ℕ → Result (Unit {0})
send_event (err x) posted = err (wrapped (codes "marshal event") x)
send_event (ok _) (err x) = err (wrapped (codes "post event") x)
send_event (ok _) (ok status) =
    if ltb status 300 then ok tt else err (Error.unexpected_status status)

-- The counters of the main loop.
pub record Tally : Type 0 where
  pub sent : ℕ
  pub failed : ℕ

-- One tick of the main loop, and the ticks until the context is done.
unfoldable pub count_answer : Result (Unit {0}) → Tally → Tally
count_answer (ok _) t = record t { sent = t.sent + 1 }
count_answer (err _) t = record t { failed = t.failed + 1 }

unfoldable pub run_ticks : List (Result (Unit {0}) × Result ℕ) → Tally → Tally
unfolding count_answer send_event
run_ticks [] t = t
run_ticks ((marshalled, posted) ∷ ticks) t =
    run_ticks ticks (count_answer (send_event marshalled posted) t)
