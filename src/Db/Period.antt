-- ===== src/Db/Period.antt =====
-- What internal/db/postgres.go prints of a duration: the text of the interval of its statements, and
-- `String` of package time. A duration is a number of nanoseconds.
pub mod Hours
use llmwatch.Base.{
  ℕ, zero, suc, ◌+◌, ◌*◌, ◌/◌, ◌%◌, Bytes, codes, List, [], ◌∷◌, ◌++◌, Bool, ltb, nat_beq,
  if◌then◌else◌, ℤ, pos, negsuc, sub_ℕ, pos_part, neg_part, ltb_ℤ, Float64, format_nat, format_int,
}

-- Go's quotient and remainder, which round towards zero.
unfoldable pub quot : ℤ → ℕ → ℤ
quot (pos n) k = pos (n / k)
quot (negsuc n) k = sub_ℕ 0 (suc n / k)

unfoldable pub rem : ℤ → ℕ → ℤ
rem (pos n) k = pos (n % k)
rem (negsuc n) k = sub_ℕ 0 (suc n % k)

module _ {F : Type 0} ⦃fl : Float64 F⦄ where
  -- Duration.Seconds
  unfoldable pub seconds : ℤ → F
  unfolding quot rem
  seconds d =
      fl.fadd (fl.of_int (quot d 1000000000))
        (fl.fdiv (fl.of_int (rem d 1000000000)) (fl.decimal 1000000000 0))

-- fmt.Sprintf("%d seconds", int(since.Seconds()))
unfoldable pub interval_text : {F : Type 0} → Float64 F → ℤ → Bytes
unfolding seconds
interval_text fl since = format_int (fl.truncate (seconds ⦃fl = fl⦄ since)) ++ codes " seconds"

-- The last `places` decimal digits of a number, less the zeros at their end, in front of `out`.
unfoldable pub fraction_digits : ℕ → ℕ → Bytes → Bytes
fraction_digits zero n out = out
fraction_digits (suc places) n [] =
    fraction_digits places (n / 10) (if nat_beq (n % 10) 0 then [] else (b'0' + n % 10) ∷ [])
fraction_digits (suc places) n (c ∷ out) =
    fraction_digits places (n / 10) ((b'0' + n % 10) ∷ c ∷ out)

-- The point and the digits, or nothing.
unfoldable pub fraction : ℕ → ℕ → Bytes
unfolding fraction_digits
fraction places n = elim (fraction_digits places n []) [ [] ↦ [] | c ∷ s ↦ b'.' ∷ c ∷ s ]

-- From a second on; `s` is the number of whole seconds and `tail` the fraction with its unit.
unfoldable pub clock_text : ℕ → Bytes → Bytes
clock_text s tail =
    if ltb s 60
    then format_nat s ++ tail
    else if ltb s 3600
    then format_nat (s / 60) ++ b'm' ∷ (format_nat (s % 60) ++ tail)
    else format_nat (s / 3600)
      ++ b'h' ∷ (format_nat (s / 60 % 60) ++ b'm' ∷ (format_nat (s % 60) ++ tail))

-- A number of nanoseconds below a second; the bytes 194 and 181 are the sign µ.
unfoldable pub small_text : ℕ → Bytes
unfolding fraction
small_text u =
    if nat_beq u 0
    then codes "0s"
    else if ltb u 1000
    then format_nat u ++ codes "ns"
    else if ltb u 1000000
    then format_nat (u / 1000) ++ (fraction 3 u ++ 194 ∷ 181 ∷ codes "s")
    else format_nat (u / 1000000) ++ (fraction 6 u ++ codes "ms")

unfoldable pub magnitude_text : ℕ → Bytes
unfolding small_text clock_text fraction
magnitude_text u =
    if ltb u 1000000000
    then small_text u
    else clock_text (u / 1000000000) (fraction 9 u ++ codes "s")

-- Duration.String
unfoldable pub duration_string : ℤ → Bytes
unfolding magnitude_text
duration_string (pos n) = magnitude_text n
duration_string (negsuc n) = b'-' ∷ magnitude_text (suc n)
