-- ===== src/Jobs/Validate.antt =====
-- internal/jobs/job.go: the check of a new job, `ValidateNew`.
use jobqueue.Common.{
  ◌≤◌, ◌≡◌, ◌≢◌, ◌↔◌, ℤ, pos, ltb_ℤ, ◌≤ℤ◌, Bool, Option, none, some, ltb, if◌then◌else◌, Text,
  text_eq, text_eq_iff, trim_space, length, [], arith, not,
}
use jobqueue.Jobs.{type_shell, max_payload_bytes}

pub data Invalid : Type 0 where
  type_required payload_required payload_too_long attempts_too_few attempts_too_many : Invalid
  unsupported_type : Text → Invalid

unfoldable pub is_empty : Text → Bool
unfolding text_eq
is_empty t = text_eq t []

-- The cases of the switch, in its order; `none` is the nil error.
unfoldable pub check_new : Text → Text → ℤ → Option Invalid
unfolding is_empty
check_new type payload max_attempts =
    if is_empty type
    then some type_required
    else if not (text_eq type type_shell)
    then some (unsupported_type type)
    else if is_empty (trim_space payload)
    then some payload_required
    else if ltb max_payload_bytes (length payload)
    then some payload_too_long
    else if ltb_ℤ max_attempts (pos 1)
    then some attempts_too_few
    else if ltb_ℤ (pos 100) max_attempts
    then some attempts_too_many
    else none

unfoldable pub validate_new : Text → Text → ℤ → Option Invalid
validate_new type payload max_attempts = check_new (trim_space type) payload max_attempts

-- The request is accepted exactly when its trimmed type is shell, its payload is not blank and of at most
-- 65536 bytes, and its attempts are from 1 to 100.
pub validate_new_iff :
    (type payload : Text) (max_attempts : ℤ)
    → (validate_new type payload max_attempts ≡ none) ↔ (
        (trim_space type ≡ type_shell)
        × (trim_space payload ≢ [])
        × (length payload ≤ max_payload_bytes)
        × (pos 1 ≤ℤ max_attempts)
        × (max_attempts ≤ℤ pos 100))
unfolding validate_new check_new is_empty
validate_new_iff type payload max_attempts = ground (
  arith,
  text_eq_iff (trim_space type) [],
  text_eq_iff (trim_space type) type_shell,
  text_eq_iff (trim_space payload) [],
)
