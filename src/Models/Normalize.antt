-- ===== src/Models/Normalize.antt =====
-- internal/models/event.go: `Normalize`.
use llmwatch.Base.{
  Bytes, [], ◌≡◌, ◌≢◌, ◌==◌, bytes_eq, int_eq, if◌then◌else◌, ℤ, pos, Float64, arith, bytes_beq_iff,
  int_beq_iff,
}
use llmwatch.Models.Event.{LlmCallEvent}
use llmwatch.Models.Pricing.{calculate_cost}

module _ {F : Type 0} ⦃fl : Float64 F⦄ where
  -- `new_id` is uuid.New().String() and `now` is time.Now().UnixMilli().
  unfoldable pub normalize : Bytes → ℤ → LlmCallEvent F → LlmCallEvent F
  normalize new_id now e = record e {
    event_id = if e.event_id == [] then new_id else e.event_id;
    timestamp = if e.timestamp == pos 0 then now else e.timestamp;
    cost_usd =
        if fl.feq e.cost_usd (fl.decimal 0 0)
        then calculate_cost e.provider e.model e.input_tokens e.output_tokens
        else e.cost_usd;
  }

  -- With a new id that is not empty and a clock that is not zero, a second Normalize changes
  -- nothing, whatever id and time it would fill in.
  pub normalize_twice :
      (new_id later_id : Bytes) (now later : ℤ) (e : LlmCallEvent F)
      → new_id ≢ []
      → now ≢ pos 0
      → normalize later_id later (normalize new_id now e) ≡ normalize new_id now e
  unfolding normalize
  normalize_twice new_id later_id now later e h k = ground (
    arith,
    bytes_beq_iff e.event_id [],
    bytes_beq_iff new_id [],
    int_beq_iff e.timestamp (pos 0),
    int_beq_iff now (pos 0),
  )
