-- ===== src/Base/Decimal.antt =====
-- What the program uses of package strconv: decimal texts of integers, and Atoi.
use Prim.Native.Nat.{ℕ, zero, suc, ◌+◌, ◌-◌, ◌*◌, ◌/◌, ◌%◌, ◌^◌, ◌≤◌, ◌<◌}
use mathlib.Core.Path.{◌≡◌, refl, ap, ◌∙◌}
use mathlib.Core.Bool.{Bool, true, false, ◌&&◌}
use mathlib.Core.Option.{Option, none, some}
use mathlib.Core.List.{[], ◌∷◌}
use native.Mathlib.Omega.{arith}
use mathlib.Core.Logic.{inl, inr}
use llmwatch.Base.Tests.{ltb, leb, nat_beq, if◌then◌else◌, Bool-cases}
use llmwatch.Base.Strings.{Bytes}
use llmwatch.Base.Int.{ℤ, pos, negsuc}

-- The digits of a number in front of `out`; the fuel is above the number.
unfoldable pub digits : ℕ → ℕ → Bytes → Bytes
digits zero n out = out
digits (suc fuel) n out =
    let more = digits fuel (n / 10) ((b'0' + n % 10) ∷ out) in
    if ltb n 10 then (b'0' + n) ∷ out else more

unfoldable pub format_nat : ℕ → Bytes
unfolding digits
format_nat n = digits (suc n) n []

-- FormatInt and the verb %d.
unfoldable pub format_int : ℤ → Bytes
unfolding format_nat
format_int (pos n) = format_nat n
format_int (negsuc n) = b'-' ∷ format_nat (suc n)

abbrev pub is_digit : ℕ → Bool
is_digit c = leb b'0' c && leb c b'9'

-- The value of the digits behind `n`; `none` at a byte that is no digit.
unfoldable pub read_digits : Bytes → ℕ → Option ℕ
read_digits [] n = some n
read_digits (c ∷ s) n = if is_digit c then read_digits s (n * 10 + (c - b'0')) else none

-- A digit string is not empty.
unfoldable pub read_nat : Bytes → Option ℕ
unfolding read_digits
read_nat [] = none
read_nat (c ∷ s) = read_digits (c ∷ s) 0

abbrev in_int64 : Bool → Option ℕ → Option ℤ
in_int64 negative none = none
in_int64 false (some n) = if ltb n (2 ^ 63) then some (pos n) else none
in_int64 true (some zero) = some (pos 0)
in_int64 true (some (suc n)) = if ltb n (2 ^ 63) then some (negsuc n) else none

-- Atoi and ParseInt(s, 10, 64): an optional sign and digits, whose value is an int64. `none` is an
-- error.
unfoldable pub atoi : Bytes → Option ℤ
unfolding read_nat
atoi [] = none
atoi (c ∷ s) =
    if nat_beq c b'-'
    then in_int64 true (read_nat s)
    else if nat_beq c b'+'
    then in_int64 false (read_nat s)
    else in_int64 false (read_nat (c ∷ s))

read_digits_step :
    (d m k : ℕ) (out : Bytes)
    → d < 10
    → m * 10 + d ≡ k
    → read_digits ((b'0' + d) ∷ out) m ≡ read_digits out k
unfolding read_digits
read_digits_step d m k out h e = ground arith

read-digits :
    (fuel n : ℕ) (out : Bytes) → n < fuel → read_digits (digits fuel n out) 0 ≡ read_digits out n
unfolding digits
read-digits zero n out h = absurd (omega arith)
read-digits (suc fuel) n out h = elim (Bool-cases (ltb n 10)) [
  | inl last ↦ rw last (read_digits_step n 0 n out (ground arith) (omega arith))
  | inr more ↦ rw more (
      read-digits fuel (n / 10) ((b'0' + n % 10) ∷ out) (ground arith)
      ∙ read_digits_step (n % 10) (n / 10) n out (omega arith) (omega arith))
]

abbrev pub StartsWithDigit : Bytes → Type 0
StartsWithDigit [] = ⊥
StartsWithDigit (c ∷ s) = (b'0' ≤ c) × (c ≤ b'9')

digits_onto-StartsWithDigit :
    (fuel n : ℕ) (out : Bytes) → StartsWithDigit out → StartsWithDigit (digits fuel n out)
unfolding digits
digits_onto-StartsWithDigit zero n out h = h
digits_onto-StartsWithDigit (suc fuel) n out h = elim (Bool-cases (ltb n 10)) [
  | inl last ↦ rw last (ground arith)
  | inr more ↦ rw more (digits_onto-StartsWithDigit fuel (n / 10) _ (omega arith))
]

pub format_nat-StartsWithDigit : (n : ℕ) → StartsWithDigit (format_nat n)
unfolding format_nat
format_nat-StartsWithDigit n = elim (Bool-cases (ltb n 10)) [
  | inl last ↦ rw last (ground arith)
  | inr more ↦ rw more (digits_onto-StartsWithDigit n (n / 10) _ (omega arith))
]

atoi_digits : (s : Bytes) → StartsWithDigit s → atoi s ≡ in_int64 false (read_digits s 0)
unfolding atoi
atoi_digits [] h = absurd h
atoi_digits (c ∷ s) h = ground arith

read_digits_nil : (n : ℕ) → read_digits [] n ≡ some n
unfolding read_digits
read_digits_nil n = refl

-- Atoi reads back the decimal text of every int64 that is not negative.
pub atoi-format_nat : (n : ℕ) → n < 2 ^ 63 → atoi (format_nat n) ≡ some (pos n)
unfolding format_nat
atoi-format_nat n h =
    atoi_digits _ (format_nat-StartsWithDigit n)
    ∙ ap (in_int64 false) (read-digits (suc n) n [] (omega arith) ∙ read_digits_nil n)
    ∙ ground arith
