-- ===== src/Models/Pricing/Case.antt =====
-- The letters of a model's name in `CalculateCost` of internal/models/event.go.
use llmwatch.Base.{
  ℕ, suc, zero, ◌-◌, Bytes, [], ◌∷◌, map, leb, ◌&&◌, if◌then◌else◌, has_prefix, lower_byte,
  lower_char, lower_from, to_lower, ℤ, Float64, ◌≡◌, refl, ap, sym, ◌∙◌, arith,
}
use llmwatch.Models.Pricing.{Pricing, select_pricing, calculate_cost}

-- A small letter of ASCII as a capital.
abbrev pub upper_byte : ℕ → ℕ
upper_byte c = if leb b'a' c && leb c b'z' then c - 32 else c

abbrev pub to_upper : Bytes → Bytes
to_upper = map upper_byte

lower_byte-upper_byte : (c : ℕ) → lower_byte (upper_byte c) ≡ lower_byte c
unfolding lower_byte
lower_byte-upper_byte c = ground arith

dotted-to_upper : (s : Bytes) → has_prefix (to_upper s) (176 ∷ []) ≡ has_prefix s (176 ∷ [])
unfolding has_prefix
dotted-to_upper [] = refl
dotted-to_upper (a ∷ s) = ground arith

kelvin-to_upper :
    (s : Bytes) → has_prefix (to_upper s) (132 ∷ 170 ∷ []) ≡ has_prefix s (132 ∷ 170 ∷ [])
unfolding has_prefix
kelvin-to_upper [] = refl
kelvin-to_upper (a ∷ []) = ground arith
kelvin-to_upper (a ∷ b ∷ s) = ground arith

lower_char-to_upper : (c : ℕ) (s : Bytes) → lower_char (upper_byte c) (to_upper s) ≡ lower_char c s
unfolding lower_char
lower_char-to_upper c s =
    ground (arith, dotted-to_upper s, kelvin-to_upper s, lower_byte-upper_byte c)

lower_from-to_upper : (n : ℕ) (s : Bytes) → lower_from n (to_upper s) ≡ lower_from n s
unfolding lower_from
lower_from-to_upper n [] = refl
lower_from-to_upper (suc n) (c ∷ s) = lower_from-to_upper n s
lower_from-to_upper zero (c ∷ s) =
    rw (lower_char-to_upper c s)
      (ap (λ t. (lower_char c s).0 ∷ t) (lower_from-to_upper (lower_char c s).1 s))

to_lower-to_upper : (s : Bytes) → to_lower (to_upper s) ≡ to_lower s
unfolding to_lower
to_lower-to_upper s = lower_from-to_upper 0 s

module _ {F : Type 0} ⦃fl : Float64 F⦄ where
  calculate_cost-to_upper :
      (provider model : Bytes) (i o : ℤ)
      → calculate_cost {F = F} provider (to_upper model) i o ≡ calculate_cost provider model i o
  unfolding calculate_cost
  calculate_cost-to_upper provider model i o =
      ap
        (λ m.
          let p : Pricing F = select_pricing provider m in
          fl.fadd (fl.fmul (fl.fdiv (fl.of_int i) (fl.decimal 1000000 0)) p.input_per_1m)
            (fl.fmul (fl.fdiv (fl.of_int o) (fl.decimal 1000000 0)) p.output_per_1m))
        (to_lower-to_upper model)

  -- The cost does not depend on the case of letters: two names of a model that are the same
  -- when their ASCII letters are written as capitals cost the same.
  pub calculate_cost_cases :
      (provider model other : Bytes) (i o : ℤ)
      → to_upper model ≡ to_upper other
      → calculate_cost {F = F} provider model i o ≡ calculate_cost provider other i o
  calculate_cost_cases provider model other i o same =
      sym (calculate_cost-to_upper provider model i o)
      ∙ ap (λ m. calculate_cost provider m i o) same
      ∙ calculate_cost-to_upper provider other i o
