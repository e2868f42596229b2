-- ===== src/Jobs/Backoff/Bounds.antt =====
-- The range of the retry delay, and its values.
use native.Mathlib.Nat.{pow-suc, suc-add}
use native.Mathlib.Decide.{dec_lt}
use jobqueue.Common.{
  ◌==◌, if◌then◌else◌, ==_iff, pos_part, ◌≤ℤ◌, ltb_ℤ, ℤ, pos, ℕ, zero, suc, ◌+◌, ◌-◌, ◌*◌, ◌^◌, ◌≤◌,
  ◌<◌, min, ◌≡◌, refl, ap, ◌∙◌, Bool, true, false, arith,
}
use jobqueue.Jobs.Backoff.{
  second, default_backoff, int64, base_or_default, max_or_default, ceiling, delay, BackoffConfig,
}

ceiling_bounds : (d max : ℤ) → pos 1 ≤ℤ max → (pos 1 ≤ℤ ceiling d max) × (ceiling d max ≤ℤ max)
unfolding ceiling
ceiling_bounds d max h = ground arith

max_or_default_pos : (c : BackoffConfig) → pos 1 ≤ℤ max_or_default c
max_or_default_pos c = ground arith

-- For every configuration and every attempt the delay is positive and at most the ceiling.
pub delay_bounds :
    (c : BackoffConfig) (attempt : ℤ)
    → (pos 1 ≤ℤ delay c attempt) × (delay c attempt ≤ℤ max_or_default c)
unfolding delay
delay_bounds c attempt =
    let n = if ltb_ℤ attempt (pos 1) then 1 else pos_part attempt in
    let h = max_or_default_pos c in
    ground (
      arith,
      h,
      ceiling_bounds (int64 (2 ^ (n - 1) * pos_part (base_or_default c))) (max_or_default c) h,
    )

int64_small : (n : ℕ) → n < 2 ^ 63 → int64 n ≡ pos n
unfolding int64
int64_small n h = ground arith

ceiling-min : (d m : ℕ) → 0 < d → ceiling (pos d) (pos m) ≡ pos (min d m)
unfolding ceiling
ceiling-min d m h = ground arith

-- What the delay is while the exponent is not clamped.
delay_unclamped :
    (c : BackoffConfig) (n b m : ℕ)
    → c.base ≡ pos (suc b)
    → c.max ≡ pos (suc m)
    → n < 40
    → delay c (pos (suc n)) ≡ ceiling (int64 (2 ^ n * suc b)) (pos (suc m))
unfolding delay
delay_unclamped c n b m eb em hn = ground arith

pow_pos : (n : ℕ) → 0 < 2 ^ n
pow_pos zero = omega arith
pow_pos (suc n) = simp pow-suc (omega (arith, pow_pos n))

-- While the doubled base stays below 2^63, the delay is the smaller of it and the ceiling.
pub delay_exact :
    (c : BackoffConfig) (n b m : ℕ)
    → c.base ≡ pos (suc b)
    → c.max ≡ pos (suc m)
    → n < 40
    → 2 ^ n * suc b < 2 ^ 63
    → delay c (pos (suc n)) ≡ pos (min (2 ^ n * suc b) (suc m))
delay_exact c n b m eb em hn h =
    delay_unclamped c n b m eb em hn
    ∙ ap (λ d. ceiling d (pos (suc m))) (int64_small (2 ^ n * suc b) h)
    ∙ ceiling-min (2 ^ n * suc b) (suc m) (grind (arith, pow_pos n))

-- A test at each of the exponents that the clamp lets through.
passes : (ℕ → Bool) → ℕ → Bool
passes test zero = true
passes test (suc k) = if test k then passes test k else false

passes_at : (test : ℕ → Bool) (k e : ℕ) → e < k → passes test k ≡ true → test e ≡ true
unfolding passes
passes_at test zero e below ok = elim below [ ]
passes_at test (suc k) e below ok = ground (arith, passes_at test k e)

default_delay_table :
    passes
      (λ n. pos_part (delay default_backoff (pos (suc n))) == min (2 ^ n * second) (300 * second))
      40
    ≡ true
unfolding passes delay default_backoff int64 ceiling
default_delay_table = refl

default_delay_small :
    (n : ℕ)
    → n < 40
    → delay default_backoff (pos (suc n)) ≡ pos (min (2 ^ n * second) (300 * second))
default_delay_small n h = ground (
  arith,
  (==_iff _ _).0 (passes_at _ 40 n h default_delay_table),
  delay_bounds default_backoff (pos (suc n)),
)

-- Past the clamp the delay is the ceiling.
delay_clamped : (c : BackoffConfig) (n : ℕ) → 40 ≤ n → delay c (pos (suc n)) ≡ max_or_default c
unfolding delay
delay_clamped c n h = ground arith

pow_above : (k : ℕ) → 2 ^ 40 ≤ 2 ^ (k + 40)
pow_above zero = omega arith
pow_above (suc k) = rw (suc-add) (simp pow-suc (omega (arith, pow_above k)))

-- Under the default policy the delay after attempt n + 1 is 2^n seconds, up to five minutes, for every n:
-- there the clamp at 40 and the test on the product leave no overflow.
pub default_delay :
    (n : ℕ) → delay default_backoff (pos (suc n)) ≡ pos (min (2 ^ n * second) (300 * second))
unfolding default_backoff
default_delay n = elim (dec_lt n 40) [
  | yes h ↦ default_delay_small n h
  | no h ↦
      delay_clamped default_backoff n (omega arith)
      ∙ ap pos (let e : n ≡ (n - 40) + 40 = omega arith in rw e (omega (arith, pow_above (n - 40))))
]

-- The clamp at 40 does not keep every product within an int64: for a base between 2^25 and 2^25 + 2^24
-- nanoseconds the product of attempt 40 wraps to a positive number, and where that is at most the ceiling
-- the delay is the wrapped number and not the ceiling.
pub delay_wraps :
    (c : BackoffConfig) (r m : ℕ)
    → 0 < r
    → r < 2 ^ 24
    → 2 ^ 39 * r ≤ m
    → c.base ≡ pos (2 ^ 25 + r)
    → c.max ≡ pos m
    → delay c (pos 40) ≡ pos (2 ^ 39 * r)
unfolding delay int64 ceiling
delay_wraps c r m h lt le eb em = ground arith
