-- ===== src/Base/Float.antt =====
-- What the program uses of float64, whose arithmetic is the processor's: a parameter of the model.
use Prim.Native.Nat.{ℕ}
use mathlib.Core.Bool.{Bool}
use llmwatch.Base.Int.{ℤ}

-- `decimal m d` is the float64 nearest to m / 10 ^ d, the value of a literal; `of_int` is the
-- conversion float64(n); `floor` and `ceil` are int(math.Floor(x)) and int(math.Ceil(x)), and `truncate` is
-- the conversion int64(x).
pub record Float64 (F : Type 0) : Type 0 where
  pub decimal : ℕ → ℕ → F
  pub of_int : ℤ → F
  pub fadd : F → F → F
  pub fsub : F → F → F
  pub fmul : F → F → F
  pub fdiv : F → F → F
  pub feq : F → F → Bool
  pub flt : F → F → Bool
  pub floor : F → ℤ
  pub ceil : F → ℤ
  pub truncate : F → ℤ
