-- ===== src/Db/Period/Hours.antt =====
-- A whole number of hours, as internal/db/postgres.go prints it.
use llmwatch.Base.{
  ℕ, zero, suc, ◌*◌, ◌/◌, ◌%◌, ◌^◌, ◌≤◌, ◌<◌, Bytes, codes, [], ◌∷◌, ◌++◌, pos, Float64, format_nat,
  format_int, ◌≡◌, refl, ap, ap₂, ◌∙◌, arith,
}
use llmwatch.Db.Period.{
  quot, rem, seconds, interval_text, fraction_digits, fraction, clock_text, magnitude_text,
  duration_string,
}

-- What float64 gives for natural numbers below 2 ^ 53, which it has exactly.
pub record IsExact {F : Type 0} (fl : Float64 F) : Type 0 where
  pub zero_div : fl.fdiv (fl.of_int (pos 0)) (fl.decimal 1000000000 0) ≡ fl.of_int (pos 0)
  pub add_zero :
      (n : ℕ) → n < 2 ^ 53 → fl.fadd (fl.of_int (pos n)) (fl.of_int (pos 0)) ≡ fl.of_int (pos n)
  pub truncate_int : (n : ℕ) → n < 2 ^ 53 → fl.truncate (fl.of_int (pos n)) ≡ pos n

module _ {F : Type 0} (fl : Float64 F) (exact : IsExact fl) where
  seconds_whole :
      (n : ℕ) → n < 2 ^ 53 → seconds ⦃fl = fl⦄ (pos (n * 1000000000)) ≡ fl.of_int (pos n)
  unfolding seconds quot rem
  seconds_whole n small =
      ap₂
        (λ q r. fl.fadd (fl.of_int (pos q)) (fl.fdiv (fl.of_int (pos r)) (fl.decimal 1000000000 0)))
        (omega arith) (omega arith)
      ∙ ap (fl.fadd (fl.of_int (pos n))) exact.zero_div
      ∙ exact.add_zero n small

  -- The interval of a whole number of seconds.
  pub interval_text_seconds :
      (n : ℕ)
      → n < 2 ^ 53
      → interval_text fl (pos (n * 1000000000)) ≡ format_nat n ++ codes " seconds"
  unfolding interval_text format_int
  interval_text_seconds n small =
      ap (λ x. format_int (fl.truncate x) ++ codes " seconds") (seconds_whole n small)
      ∙ ap (λ a. format_int a ++ codes " seconds") (exact.truncate_int n small)

times_ten : (k : ℕ) → (k * 10 / 10 ≡ k) × (k * 10 % 10 ≡ 0)
times_ten k = (omega arith, omega arith)

-- A zero at the end of the fraction is dropped.
digit_dropped :
    (places k : ℕ) → fraction_digits (suc places) (k * 10) [] ≡ fraction_digits places k []
unfolding fraction_digits
digit_dropped places k = let (q, r) = times_ten k in ground (arith, q, r)

abbrev tens : ℕ → ℕ → ℕ
tens zero k = k
tens (suc places) k = tens places k * 10

no_fraction : (places k : ℕ) → fraction_digits places (tens places k) [] ≡ []
unfolding fraction_digits
no_fraction zero k = refl
no_fraction (suc places) k = digit_dropped places (tens places k) ∙ no_fraction places k

no_nanoseconds : (s : ℕ) → fraction 9 (s * 1000000000) ≡ []
unfolding fraction
no_nanoseconds s =
    let e : fraction_digits 9 (s * 1000000000) [] ≡ [] =
      ap (λ n. fraction_digits 9 n []) {x = s * 1000000000} {y = tens 9 s} (omega arith)
      ∙ no_fraction 9 s in
    ground (arith, e)

whole_seconds : (s : ℕ) → (s * 1000000000 / 1000000000 ≡ s)
whole_seconds s = omega arith

magnitude_text_seconds :
    (s : ℕ) → 1 ≤ s → magnitude_text (s * 1000000000) ≡ clock_text s (codes "s")
unfolding magnitude_text
magnitude_text_seconds s some_seconds = ground (arith, no_nanoseconds s, whole_seconds s)

clock_parts : (n : ℕ) → (n * 3600 / 3600 ≡ n) × (n * 3600 / 60 % 60 ≡ 0) × (n * 3600 % 60 ≡ 0)
clock_parts n = (omega arith, omega arith, omega arith)

clock_text_hours :
    (n : ℕ) (tail : Bytes)
    → 1 ≤ n
    → clock_text (n * 3600) tail
      ≡ format_nat n ++ b'h' ∷ (format_nat 0 ++ b'm' ∷ (format_nat 0 ++ tail))
unfolding clock_text
clock_text_hours n tail some_hours = ground (arith, clock_parts n)

-- Duration.String of a whole number of hours.
pub duration_string_hours :
    (n : ℕ) → 1 ≤ n → duration_string (pos (n * 3600000000000)) ≡ format_nat n ++ codes "h0m0s"
unfolding duration_string
duration_string_hours n some_hours =
    ap magnitude_text {x = n * 3600000000000} {y = n * 3600 * 1000000000} (omega arith)
    ∙ magnitude_text_seconds (n * 3600) (omega arith)
    ∙ clock_text_hours n (codes "s") some_hours
    ∙ (unfold format_nat in refl)
