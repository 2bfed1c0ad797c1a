-- ===== src/Redis/Percentile.antt =====
-- internal/redis/client.go: `percentile`.
pub mod Bounds
use llmwatch.Base.{
  ℕ, ◌-◌, List, [], ◌∷◌, length, get_or, ◌==◌, int_eq, if◌then◌else◌, ℤ, pos, negsuc, Float64,
}

module _ {F : Type 0} ⦃fl : Float64 F⦄ where
  -- sorted[i]. A read out of range, which would panic, gives zero here.
  abbrev pub at_index : List F → ℤ → F
  at_index xs (pos i) = get_or xs i (fl.decimal 0 0)
  at_index xs (negsuc i) = fl.decimal 0 0

  -- (p / 100) * float64(n - 1), for n ≥ 1 samples.
  unfoldable pub rank : ℕ → F → F
  rank n p = fl.fmul (fl.fdiv p (fl.decimal 100 0)) (fl.of_int (pos (n - 1)))

  -- The samples are in ascending order.
  unfoldable pub percentile : List F → F → F
  unfolding rank
  percentile [] p = fl.decimal 0 0
  percentile (x ∷ []) p = x
  percentile (x ∷ y ∷ zs) p =
      let sorted = x ∷ y ∷ zs in
      let r = rank (length sorted) p in
      let lower = fl.floor r in
      let upper = fl.ceil r in
      if lower == upper
      then at_index sorted lower
      else fl.fadd (at_index sorted lower) (
          fl.fmul (fl.fsub r (fl.of_int lower))
            (fl.fsub (at_index sorted upper) (at_index sorted lower)))
