-- ===== src/Scenarios/Policy.antt =====
-- The theorems about the retry delay and the check of a new job, at concrete policies and requests.
use jobqueue.Common.{
  length, ◌≤ℤ◌, pos, text, trim_space, suc, ◌+◌, ◌*◌, ◌^◌, ◌≤◌, ◌≡◌, refl, ◌≢◌, ◌↔◌, none, [],
  arith,
}
use jobqueue.Jobs.{type_shell, max_payload_bytes}
use jobqueue.Jobs.Validate.{validate_new, validate_new_iff}
use jobqueue.Jobs.Backoff.{delay, BackoffConfig}
use jobqueue.Jobs.Backoff.Bounds.{delay_bounds, delay_wraps}

abbrev minute_policy : BackoffConfig
minute_policy = record { base = pos (suc 99_999_999); max = pos (suc 59_999_999_999) }

-- 33.554433 ms doubled 39 times passes 2^64 and wraps to about 550 s.
abbrev wrapping_policy : BackoffConfig
wrapping_policy = record { base = pos (2 ^ 25 + 1); max = pos 3_600_000_000_000 }

delay_bounds_example :
    (pos 1 ≤ℤ delay minute_policy (pos 9)) × (delay minute_policy (pos 9) ≤ℤ pos 60_000_000_000)
delay_bounds_example = delay_bounds minute_policy (pos 9)

delay_wraps_example : delay wrapping_policy (pos 40) ≡ pos (2 ^ 39 * 1)
delay_wraps_example =
    delay_wraps wrapping_policy 1 3_600_000_000_000 (omega arith) (omega arith) (omega arith) refl
      refl

validate_new_iff_example : (validate_new (text " shell ") (text "true") (pos 3) ≡ none) ↔ (
    (trim_space (text " shell ") ≡ type_shell)
    × (trim_space (text "true") ≢ [])
    × (length (text "true") ≤ max_payload_bytes)
    × (pos 1 ≤ℤ pos 3)
    × (pos 3 ≤ℤ pos 100))
validate_new_iff_example = validate_new_iff (text " shell ") (text "true") (pos 3)
