-- ===== src/Redis/Percentile/Bounds.antt =====
-- `percentile` of internal/redis/client.go reads its samples within their range.
use llmwatch.Base.{
  ◌∷◌, [], List, length, get_or, zero, suc, ◌+◌, ◌^◌, ◌+ℤ◌, ◌==◌, nat_eq, if◌then◌else◌, ℕ, ◌-◌,
  ◌≤◌, ◌<◌, ℤ, pos, negsuc, ◌≤ℤ◌, Float64, ◌≡◌, refl, arith,
}
use llmwatch.Redis.Percentile.{rank, percentile}

-- What IEEE 754 gives for the arithmetic of ranks, with `Le` the order of float64, which holds of no
-- NaN: the integers up to 2 ^ 53 are exact and rounding is monotone, so a factor between 0 and 1 does
-- not leave the range from 0 to such an integer; and there the floor and the ceiling are exact.
pub record IsRounding {F : Type 0} (fl : Float64 F) (Le : F → F → Type 0) : Type 0 where
  pub mul_low :
      (a : F) (k : ℕ)
      → k ≤ 2 ^ 53
      → Le (fl.of_int (pos 0)) a
      → Le a (fl.of_int (pos 1))
      → Le (fl.of_int (pos 0)) (fl.fmul a (fl.of_int (pos k)))
  pub mul_high :
      (a : F) (k : ℕ)
      → k ≤ 2 ^ 53
      → Le (fl.of_int (pos 0)) a
      → Le a (fl.of_int (pos 1))
      → Le (fl.fmul a (fl.of_int (pos k))) (fl.of_int (pos k))
  pub floor_ceil :
      (x : F) (k : ℕ)
      → k ≤ 2 ^ 53
      → Le (fl.of_int (pos 0)) x
      → Le x (fl.of_int (pos k))
      → (pos 0 ≤ℤ fl.floor x)
        × (fl.floor x ≤ℤ fl.ceil x)
        × (fl.ceil x ≤ℤ fl.floor x +ℤ pos 1)
        × (fl.ceil x ≤ℤ pos k)

indices :
    (n : ℕ) (a b : ℤ)
    → 1 ≤ n
    → pos 0 ≤ℤ a
    → a ≤ℤ b
    → b ≤ℤ a +ℤ pos 1
    → b ≤ℤ pos (n - 1)
    → (lower : ℕ) × (upper : ℕ) × (a ≡ pos lower)
      × (b ≡ pos upper)
      × (lower ≤ upper)
      × (upper ≤ lower + 1)
      × (upper < n)
unfolding ◌+ℤ◌
indices n (pos a) (pos b) h low mid close high =
    (a, b, refl, refl, omega arith, ground arith, omega arith)
indices n (pos a) (negsuc b) h low mid close high = absurd (omega arith)
indices n (negsuc a) b h low mid close high = absurd (omega arith)

get_or_default :
    {A : Type 0} (xs : List A) (i : ℕ) (d e : A) → i < length xs → get_or xs i d ≡ get_or xs i e
get_or_default [] i d e h = absurd (omega arith)
get_or_default (x ∷ xs) zero d e h = refl
get_or_default (x ∷ xs) (suc i) d e h = get_or_default xs i d e (omega arith)

module _ {F : Type 0} ⦃fl : Float64 F⦄ where
  -- The value at the indices l and u, between which the rank r lies.
  abbrev pub interpolated : List F → F → ℕ → ℕ → F → F
  interpolated xs r l u d =
      if l == u
      then get_or xs l d
      else fl.fadd (get_or xs l d)
          (fl.fmul (fl.fsub r (fl.of_int (pos l))) (fl.fsub (get_or xs u d) (get_or xs l d)))

  percentile_at :
      (xs : List F) (p d : F) (l u : ℕ)
      → fl.floor (rank (length xs) p) ≡ pos l
      → fl.ceil (rank (length xs) p) ≡ pos u
      → l ≤ u
      → u < length xs
      → percentile xs p ≡ interpolated xs (rank (length xs) p) l u d
  unfolding percentile
  percentile_at [] p d l u low high order within = absurd (omega arith)
  percentile_at (x ∷ []) p d zero zero low high order within = refl
  percentile_at (x ∷ []) p d (suc l) u low high order within = absurd (omega arith)
  percentile_at (x ∷ []) p d l (suc u) low high order within = absurd (omega arith)
  percentile_at (x ∷ y ∷ zs) p d l u low high order within =
      let zero_ = fl.decimal 0 0 in
      rw low (
        rw high (
          rw (get_or_default (x ∷ y ∷ zs) l zero_ d (omega arith))
            (rw (get_or_default (x ∷ y ∷ zs) u zero_ d within) refl)))

module _ {F : Type 0} ⦃fl : Float64 F⦄ (Le : F → F → Type 0) (laws : IsRounding fl Le) where
  -- In an arithmetic that rounds as IEEE 754 does, for a percentage whose hundredth is from 0
  -- to 1 and from 1 to 2 ^ 53 samples: the floor and the ceiling of the rank are indices of the
  -- samples, at most one apart, and percentile is the sample there when they are the same, and
  -- otherwise the lower sample plus the rank's distance from its floor times the difference to
  -- the upper one.
  pub rank_in_range :
      (xs : List F) (p d : F)
      → 1 ≤ length xs
      → length xs ≤ 2 ^ 53
      → Le (fl.of_int (pos 0)) (fl.fdiv p (fl.decimal 100 0))
      → Le (fl.fdiv p (fl.decimal 100 0)) (fl.of_int (pos 1))
      → let r = rank (length xs) p in
        (lower : ℕ) × (upper : ℕ) × (fl.floor r ≡ pos lower)
        × (fl.ceil r ≡ pos upper)
        × (lower ≤ upper)
        × (upper ≤ lower + 1)
        × (upper < length xs)
        × (percentile xs p ≡ interpolated xs r lower upper d)
  unfolding rank
  rank_in_range xs p d some_samples few low high =
      let share = fl.fdiv p (fl.decimal 100 0) in
      let k = length xs - 1 in
      let r = fl.fmul share (fl.of_int (pos k)) in
      let small : k ≤ 2 ^ 53 = omega arith in
      let (above, order, close, below) =
        laws.floor_ceil r k small (laws.mul_low share k small low high)
          (laws.mul_high share k small low high) in
      let (l, u, at_l, at_u, l_u, near, within) =
        indices (length xs) (fl.floor r) (fl.ceil r) some_samples above order close below in
      (l, u, at_l, at_u, l_u, near, within, percentile_at xs p d l u at_l at_u l_u within)
