-- ===== src/Retry/Bounds.antt =====
-- The delays in milliseconds (retrypolicy/backoff.go).
use minijob.Prelude.{ℕ, zero, suc, ◌*◌, ◌%◌, ◌≤◌, ◌<◌, min, ◌≡◌, refl, arith, ap}
use minijob.Prelude.Int64.{pos, signed64, wrap64}
use minijob.Retry.{
  BackoffStrategyType, BackoffStrategy, Float64, constant, linear, exponential, unknown,
  times_millisecond, delay_by, compute_delay, milliseconds,
}

small-signed64 : (n : ℕ) → n < 9223372036854775808 → signed64 n ≡ pos n
unfolding signed64
small-signed64 n h = ground arith

-- A duration of `n` milliseconds, where that is an int64 of nanoseconds.
milliseconds-times_millisecond :
    (n : ℕ) → n ≤ 9223372036854 → milliseconds (times_millisecond (pos n)) ≡ pos n
unfolding milliseconds times_millisecond wrap64
milliseconds-times_millisecond n h =
    rw (small-signed64 (n * 1000000) (omega arith)) (ap pos (omega arith))

-- `n` multiplied `k` times by `a`.
abbrev pub grown : ℕ → ℕ → ℕ → ℕ
grown n a zero = n
grown n a (suc k) = a * grown n a k

-- The float64 values of integers below 2^53 are exact: so are their least one, and products and powers
-- that are below 2^53 too, and the way back.
pub record IsFloat64 (f : Float64) : Type 0 where
  pub times_exact :
      (m n : ℕ) → m * n < 9007199254740992 → f.times (f.of_uint m) (f.of_uint n) ≡ f.of_uint (m * n)
  pub pow_exact :
      (a k : ℕ)
      → grown 1 a k < 9007199254740992
      → f.pow (f.of_uint a) (f.of_uint k) ≡ f.of_uint (grown 1 a k)
  pub least_exact :
      (m n : ℕ)
      → m < 9007199254740992
      → n < 9007199254740992
      → f.least (f.of_uint m) (f.of_uint n) ≡ f.of_uint (min m n)
  pub back : (n : ℕ) → n < 9007199254740992 → f.to_int64 (f.of_uint n) ≡ pos n

-- The delay in milliseconds that a strategy means, with the factor `a`.
abbrev pub intended_delay : BackoffStrategyType → BackoffStrategy → ℕ → ℕ → ℕ
intended_delay constant bs a failures = bs.base
intended_delay linear bs a failures = min bs.max_duration (failures * bs.base)
intended_delay exponential bs a failures = min bs.max_duration (bs.base * grown 1 a failures)
intended_delay (unknown n) bs a failures = 0

module _ (f : Float64) (g : IsFloat64 f) (bs : BackoffStrategy) (a failures : ℕ)
    (hb : bs.base ≤ 9223372036854) (hm : bs.max_duration ≤ 9223372036854)
    (hl : failures * bs.base < 18446744073709551616) (factor : bs.factor ≡ f.of_uint a)
    (hp : grown 1 a failures < 9007199254740992)
    (hg : bs.base * grown 1 a failures < 9007199254740992) where
  short : (n : ℕ) → n ≤ 9223372036854 → milliseconds (times_millisecond (signed64 n)) ≡ pos n
  short n h = rw (small-signed64 n (omega arith)) (milliseconds-times_millisecond n h)

  formula :
      f.to_int64 (
        f.least
          (f.of_uint bs.max_duration)
          (f.times (f.of_uint bs.base) (f.pow bs.factor (f.of_uint failures))))
      ≡ pos (min bs.max_duration (bs.base * grown 1 a failures))
  formula =
      let p = bs.base * grown 1 a failures in
      let m : bs.max_duration < 9007199254740992 = omega (arith, hm) in
      rw
        (
          factor,
          g.pow_exact a failures hp,
          g.times_exact bs.base (grown 1 a failures) hg,
          g.least_exact bs.max_duration p m hg,
        )
        (g.back (min bs.max_duration p) (omega (arith, m)))

  delay_by_exact :
      (s : BackoffStrategyType)
      → milliseconds (delay_by s f bs failures) ≡ pos (intended_delay s bs a failures)
  unfolding delay_by
  delay_by_exact constant = short bs.base hb
  delay_by_exact linear =
      let e : failures * bs.base % 18446744073709551616 ≡ failures * bs.base = omega (arith, hl) in
      rw e (short (min bs.max_duration (failures * bs.base)) (omega (arith, hm)))
  delay_by_exact exponential = rw formula (
      milliseconds-times_millisecond (min bs.max_duration (bs.base * grown 1 a failures))
        (omega (arith, hm)))
  delay_by_exact (unknown n) = unfold milliseconds in refl

-- The delay is, to the millisecond and with no wrap-around: the base; the least of the maximum and the
-- product of the failures and the base; or the least of the maximum and the base multiplied by the
-- power of the factor to the number of the failures; and zero for an unknown strategy. The settings are
-- at most 9223372036854 milliseconds (292 years), the product is a uint, and the factor is an integer
-- whose power, also times the base, is below 2^53.
pub compute_delay_exact :
    (f : Float64) (bs : BackoffStrategy) (a failures : ℕ)
    → IsFloat64 f
    → bs.base ≤ 9223372036854
    → bs.max_duration ≤ 9223372036854
    → failures * bs.base < 18446744073709551616
    → bs.factor ≡ f.of_uint a
    → grown 1 a failures < 9007199254740992
    → bs.base * grown 1 a failures < 9007199254740992
    → milliseconds (compute_delay f bs failures) ≡ pos (intended_delay bs.strategy bs a failures)
unfolding compute_delay
compute_delay_exact f bs a failures g hb hm hl factor hp hg =
    delay_by_exact f g bs a failures hb hm hl factor hp hg bs.strategy
