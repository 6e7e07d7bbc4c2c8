-- ===== src/Retry.antt =====
-- retrypolicy/backoff.go and retrypolicy/retrypolicy.go: the delay before the next try of a job.
-- A time.Duration is an int64 of nanoseconds. The arithmetic on float64 values and math.Pow, which
-- the exponential strategy uses, are parameters.
pub mod Bounds
use minijob.Prelude.{ℕ, zero, suc, ◌+◌, ◌*◌, ◌/◌, ◌%◌, min}
use minijob.Prelude.Int64.{ℤ, pos, negsuc, signed64, wrap64}

pub data BackoffStrategyType : Type 0 where
  constant linear exponential : BackoffStrategyType
  -- a number that names no strategy
  unknown : ℕ → BackoffStrategyType

-- Base and MaxDuration are uints below 2^64, in milliseconds; the factor is given by its 64 bits.
pub record BackoffStrategy : Type 0 where
  pub strategy : BackoffStrategyType
  pub base : ℕ
  pub factor : ℕ
  pub max_duration : ℕ

pub record RetryPolicy : Type 0 where
  pub max_retry : ℕ
  pub backoff : BackoffStrategy

-- float64 values, given by their 64 bits: the conversion of a uint, the product, math.Pow, min, and
-- the conversion to an int64.
pub record Float64 : Type 0 where
  pub of_uint : ℕ → ℕ
  pub times : ℕ → ℕ → ℕ
  pub pow : ℕ → ℕ → ℕ
  pub least : ℕ → ℕ → ℕ
  pub to_int64 : ℕ → ℤ

-- `* time.Millisecond` on a Duration
unfoldable pub times_millisecond : ℤ → ℤ
unfolding wrap64
times_millisecond (pos n) = wrap64 (pos (n * 1000000))
times_millisecond (negsuc n) = wrap64 (negsuc (n * 1000000 + 999999))

-- The switch of ComputeDelay.
unfoldable pub delay_by : BackoffStrategyType → Float64 → BackoffStrategy → ℕ → ℤ
unfolding times_millisecond signed64
delay_by constant f bs failures = times_millisecond (signed64 bs.base)
delay_by linear f bs failures =
    times_millisecond (signed64 (min bs.max_duration (failures * bs.base % 18446744073709551616)))
delay_by exponential f bs failures = times_millisecond (
    f.to_int64 (
      f.least (f.of_uint bs.max_duration)
        (f.times (f.of_uint bs.base) (f.pow bs.factor (f.of_uint failures)))))
delay_by (unknown n) f bs failures = pos 0

-- ComputeDelay
unfoldable pub compute_delay : Float64 → BackoffStrategy → ℕ → ℤ
unfolding delay_by
compute_delay f bs failures = delay_by bs.strategy f bs failures

-- Duration.Milliseconds: the division by a million, towards zero
unfoldable pub milliseconds : ℤ → ℤ
milliseconds (pos n) = pos (n / 1000000)
milliseconds (negsuc n) = elim (suc n / 1000000) [ zero ↦ pos 0 | suc k ↦ negsuc k ]
