-- ===== src/Models/Pricing.antt =====
-- internal/models/event.go: `CalculateCost`.
pub mod Case
use llmwatch.Base.{ℕ, Bytes, codes, ◌==◌, bytes_eq, if◌then◌else◌, contains, to_lower, ℤ, Float64}
use llmwatch.Models.Event.{openai, anthropic, gemini}

-- USD per million input tokens and per million output tokens.
pub record Pricing (F : Type 0) : Type 0 where
  pub input_per_1m : F
  pub output_per_1m : F

module _ {F : Type 0} ⦃fl : Float64 F⦄ where
  -- The prices m / 1000 and n / 1000, written in the source with two or three decimals.
  abbrev pub price : ℕ → ℕ → Pricing F
  price m n = record { input_per_1m = fl.decimal m 3; output_per_1m = fl.decimal n 3 }

  -- The outer and the inner switches, on the model in lower case.
  unfoldable pub select_pricing : Bytes → Bytes → Pricing F
  select_pricing provider model =
      if provider == openai
      then if contains model (codes "gpt-4o-mini")
        then price 150 600
        else if contains model (codes "gpt-4o")
        then price 5000 15000
        else if contains model (codes "gpt-4-turbo")
        then price 10000 30000
        else if contains model (codes "gpt-4")
        then price 30000 60000
        else if contains model (codes "gpt-3.5")
        then price 500 1500
        else price 5000 15000
      else if provider == anthropic
      then if contains model (codes "claude-3-5-haiku")
        then price 800 4000
        else if contains model (codes "claude-3-5-sonnet")
        then price 3000 15000
        else if contains model (codes "claude-3-opus")
        then price 15000 75000
        else if contains model (codes "claude-3-sonnet")
        then price 3000 15000
        else if contains model (codes "claude-3-haiku")
        then price 250 1250
        else price 3000 15000
      else if provider == gemini
      then if contains model (codes "gemini-2.0-flash")
        then price 75 300
        else if contains model (codes "gemini-1.5-flash")
        then price 75 300
        else if contains model (codes "gemini-1.5-pro")
        then price 3500 10500
        else if contains model (codes "gemini-2.0-pro")
        then price 3500 10500
        else price 75 300
      else price 0 0

  unfoldable pub calculate_cost : Bytes → Bytes → ℤ → ℤ → F
  unfolding select_pricing
  calculate_cost provider model input_tokens output_tokens =
      let p : Pricing F = select_pricing provider (to_lower model) in
      fl.fadd (fl.fmul (fl.fdiv (fl.of_int input_tokens) (fl.decimal 1000000 0)) p.input_per_1m)
        (fl.fmul (fl.fdiv (fl.of_int output_tokens) (fl.decimal 1000000 0)) p.output_per_1m)
