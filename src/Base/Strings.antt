-- ===== src/Base/Strings.antt =====
-- Go strings as lists of bytes: literals, `==`, and what the program uses of package strings.
use Prim.Native.Nat.{ℕ, zero, suc, ◌+◌}
use Prim.Native.Char.{code}
use Prim.Native.String.{String}
use mathlib.Core.Path.{◌≡◌}
use mathlib.Core.Logic.{◌↔◌}
use mathlib.Core.Bool.{Bool, true, false, ◌&&◌, ◌||◌}
use mathlib.Core.List.{List, [], ◌∷◌}
use native.Mathlib.Omega.{arith}
use llmwatch.Base.Tests.{leb, nat_beq, Eq, if◌then◌else◌}

abbrev pub Bytes : Type 0
Bytes = List ℕ

-- The code points of a literal, which are its bytes: every literal of the program is ASCII.
abbrev pub codes : String → Bytes
codes String.[] = []
codes (String.◌∷◌ c s) = code c ∷ codes s

-- Shut, so that a test on two texts stays one test in a proof.
unfoldable pub bytes_beq : Bytes → Bytes → Bool
bytes_beq [] [] = true
bytes_beq (a ∷ s) (b ∷ t) = nat_beq a b && bytes_beq s t
bytes_beq _ _ = false

pub bytes_beq_iff : (s t : Bytes) → (bytes_beq s t ≡ true) ↔ (s ≡ t)
unfolding bytes_beq
bytes_beq_iff [] [] = ground arith
bytes_beq_iff [] (b ∷ t) = ground arith
bytes_beq_iff (a ∷ s) [] = ground arith
bytes_beq_iff (a ∷ s) (b ∷ t) = ground (arith, bytes_beq_iff s t)

instance abbrev pub bytes_eq : Eq Bytes
bytes_eq = record { beq = bytes_beq; beq_iff = bytes_beq_iff }

-- strings.HasPrefix
unfoldable pub has_prefix : Bytes → Bytes → Bool
has_prefix s [] = true
has_prefix [] (b ∷ p) = false
has_prefix (a ∷ s) (b ∷ p) = nat_beq a b && has_prefix s p

-- strings.Contains
unfoldable pub contains : Bytes → Bytes → Bool
unfolding has_prefix
contains [] p = has_prefix [] p
contains (a ∷ s) p = has_prefix (a ∷ s) p || contains s p

-- strings.ToLower on one ASCII byte.
unfoldable pub lower_byte : ℕ → ℕ
lower_byte c = if leb b'A' c && leb c b'Z' then c + 32 else c

-- What the byte `c`, with the text `s` behind it, becomes, and how many bytes of `s` belong to it: the
-- two characters outside ASCII that have a lower case in ASCII are U+0130 and the Kelvin sign.
unfoldable pub lower_char : ℕ → Bytes → ℕ × ℕ
unfolding lower_byte has_prefix
lower_char c s =
    if nat_beq c 196 && has_prefix s (176 ∷ [])
    then (b'i', 1)
    else if nat_beq c 226 && has_prefix s (132 ∷ 170 ∷ [])
    then (b'k', 2)
    else (lower_byte c, 0)

-- The text behind the bytes of the last character that are left.
unfoldable pub lower_from : ℕ → Bytes → Bytes
unfolding lower_char
lower_from skipped [] = []
lower_from (suc n) (c ∷ s) = lower_from n s
lower_from zero (c ∷ s) = (lower_char c s).0 ∷ lower_from (lower_char c s).1 s

-- strings.ToLower, as far as the search for an ASCII text can tell: a character outside ASCII whose
-- lower case is outside ASCII too stays as it is.
unfoldable pub to_lower : Bytes → Bytes
unfolding lower_from
to_lower = lower_from 0
