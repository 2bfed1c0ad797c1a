-- ===== src/Tests/Events.antt =====
-- Events, prices and the simulator at concrete data.
use llmwatch.Base.{
  ℕ, codes, ◌∷◌, ◌++◌, [], pos, ◌≤ℤ◌, ◌≡◌, ◌↔◌, refl, to_lower, ok, bytes_beq, contains,
}
use llmwatch.Models.{openai, gemini, calculate_cost, normalize, validate, IsValid}
use llmwatch.Models.Validate.{validate_iff}
use llmwatch.Models.Normalize.{normalize_twice}
use llmwatch.Models.Pricing.Case.{calculate_cost_cases}
use llmwatch.Cmd.Simulator.{Draws, generate_event}
use llmwatch.Cmd.Simulator.Generated.{generate_event-IsValid}
use llmwatch.Tests.Fixtures.{fixed, sample, named}

validate_iff_example : (validate sample ≡ ok tt) ↔ IsValid sample
validate_iff_example = validate_iff sample

normalize_twice_example :
    normalize (codes "y") (pos 9) (normalize (codes "x") (pos 7) (named []))
    ≡ normalize (codes "x") (pos 7) (named [])
normalize_twice_example =
    normalize_twice (codes "x") (codes "y") (pos 7) (pos 9) (named []) (cc) (cc)

calculate_cost_cases_example :
    calculate_cost {F = ℕ} gemini (codes "Gemini-1.5-Pro-002") (pos 10) (pos 20)
    ≡ calculate_cost gemini (codes "gemini-1.5-PRO-002") (pos 10) (pos 20)
calculate_cost_cases_example =
    calculate_cost_cases gemini (codes "Gemini-1.5-Pro-002") (codes "gemini-1.5-PRO-002") (pos 10)
      (pos 20) refl

-- 1000 tokens at $0.15 and 500 at $0.60 per million, in units of 10 ^ -9 dollars.
cost_of_mini : calculate_cost {F = ℕ} openai (codes "gpt-4o-mini") (pos 1000) (pos 500) ≡ 450000
unfolding calculate_cost bytes_beq contains to_lower
cost_of_mini = refl

-- An upper case I with a dot is an i in lower case.
cost_of_dotted :
    calculate_cost {F = ℕ} openai (codes "GPT-4O-M" ++ 196 ∷ 176 ∷ codes "ni") (pos 1000) (pos 500)
    ≡ 450000
unfolding calculate_cost bytes_beq contains to_lower
cost_of_dotted = refl

abbrev draws : Draws ℕ
draws = record {
  model_index = 3;
  latency_normal = 2000000000;
  input_normal = 0;
  output_normal = 500000000;
  error_uniform = 1000000;
  message_index = 2;
  new_id = codes "e9";
  now = pos 1700000000000;
}

generate_event-IsValid_example :
    let e = generate_event draws in
    IsValid e
    × (pos 50 ≤ℤ e.latency_ms)
    × (pos 10 ≤ℤ e.input_tokens)
    × (pos 5 ≤ℤ e.output_tokens)
    × (normalize (codes "x") (pos 7) e ≡ e)
generate_event-IsValid_example = generate_event-IsValid draws (codes "x") (pos 7) (cc) (cc)
