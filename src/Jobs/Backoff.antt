-- ===== src/Jobs/Backoff.antt =====
-- internal/jobs/job.go: the retry delay, `BackoffConfig.Delay`.
pub mod Bounds
use jobqueue.Common.{
  ℕ, ◌-◌, ◌*◌, ◌%◌, ◌^◌, ℤ, pos, negsuc, pos_part, ltb_ℤ, leb_ℤ, ltb, if◌then◌else◌, ◌||◌,
}

pub record BackoffConfig : Type 0 where
  pub base : ℤ
  pub max : ℤ

-- time.Second, in nanoseconds.
abbrev pub second : ℕ
second = 1_000_000_000

unfoldable pub default_backoff : BackoffConfig
default_backoff = record { base = pos second; max = pos (300 * second) }

-- The int64 with the bits of a product that is not negative.
unfoldable pub int64 : ℕ → ℤ
int64 n = if ltb (n % 2 ^ 64) (2 ^ 63) then pos (n % 2 ^ 64) else negsuc (2 ^ 64 - 1 - n % 2 ^ 64)

abbrev pub base_or_default : BackoffConfig → ℤ
base_or_default c = if leb_ℤ c.base (pos 0) then pos second else c.base

abbrev pub max_or_default : BackoffConfig → ℤ
max_or_default c = if leb_ℤ c.max (pos 0) then pos (300 * second) else c.max

-- The test for overflow and the ceiling, on the product.
unfoldable pub ceiling : ℤ → ℤ → ℤ
ceiling d max = if leb_ℤ d (pos 0) || ltb_ℤ max d then max else d

-- `math.Pow` is exact at exponents up to 39.
unfoldable pub delay : BackoffConfig → ℤ → ℤ
delay c attempt =
    let n = if ltb_ℤ attempt (pos 1) then 1 else pos_part attempt in
    if ltb 40 n
    then max_or_default c
    else ceiling (int64 (2 ^ (n - 1) * pos_part (base_or_default c))) (max_or_default c)
