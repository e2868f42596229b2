-- ===== src/Worker/Executor.antt =====
-- internal/worker/executor.go: a shell command, run with a deadline, and its outcome.
use jobqueue.Common.{
  if◌then◌else◌, length, leb_ℤ, ℤ, pos, Text, ◌≤◌, ◌≡◌, refl, ◌↔◌, ◌⊎◌, inl, inr, Bool, true, false,
  Option, none, some, List,
}
use jobqueue.Worker.Buffer.{max_output_bytes, write_all, new_buffer, captured, joined, captured_lem}

pub record ExecResult : Type 0 where
  pub stdout : Text
  pub stderr : Text
  pub exit_code : Option ℤ
  pub duration : ℤ

-- How os/exec's Run ends: nil, an ExitError with its code, or another error. The other is most often a
-- command that was not started, but also exec.ErrWaitDelay, of one that ended with status 0 and whose
-- output was still held open after the WaitDelay.
pub data Ending : Type 0 where
  succeeded : Ending
  exit_error : ℤ → Ending
  run_error : Text → Ending

-- What running `sh -c` does: the writes to the two streams, the end, whether the context's deadline
-- had passed then, and the time it took.
pub record Execution : Type 0 where
  pub stdout : List Text
  pub stderr : List Text
  pub ending : Ending
  pub past_deadline : Bool
  pub duration : ℤ

-- The error, with what its message holds.
pub data ExecError : Type 0 where
  timed_out : ℤ → ExecError
  exited : ℤ → ExecError
  not_started : Text → ExecError

-- The tests behind `Run`: the exit code and the error.
unfoldable pub verdict : ℤ → Bool → Ending → Option ℤ × Option ExecError
verdict limit true ending = (none, some (timed_out limit))
verdict limit false succeeded = (some (pos 0), none)
verdict limit false (exit_error code) = (some code, some (exited code))
verdict limit false (run_error msg) = (none, some (not_started msg))

verdict_lem :
    (limit : ℤ) (past : Bool) (ending : Ending)
    → let v = verdict limit past ending in
      ((v.1 ≡ none) ↔ ((past ≡ false) × (ending ≡ succeeded)))
      × ((v.1 ≡ none) → (v.0 ≡ some (pos 0)))
      × ((v.0 ≡ none) ↔ ((past ≡ true) ⊎ ((msg : Text) × (ending ≡ run_error msg))))
unfolding verdict
verdict_lem limit true ending =
    ((λ h. absurd (cc h), λ h. absurd (cc h.0)), λ h. absurd (cc h), (λ _. inl refl, λ _. refl))
verdict_lem limit false succeeded = (
  (λ _. (refl, refl), λ _. refl),
  λ _. refl,
  (λ h. absurd (cc h), λ h. elim h [ inl e ↦ absurd (cc e) | inr (msg, e) ↦ absurd (cc e) ]),
)
verdict_lem limit false (exit_error code) = (
  (λ h. absurd (cc h), λ h. absurd (cc h.1)),
  λ h. absurd (cc h),
  (λ h. absurd (cc h), λ h. elim h [ inl e ↦ absurd (cc e) | inr (msg, e) ↦ absurd (cc e) ]),
)
verdict_lem limit false (run_error msg) = (
  (λ h. absurd (cc h), λ h. absurd (cc h.1)),
  λ h. absurd (cc h),
  (λ _. inr (msg, refl), λ _. refl),
)

abbrev pub timeout_or_default : ℤ → ℤ
timeout_or_default timeout = if leb_ℤ timeout (pos 0) then pos 300_000_000_000 else timeout

-- `sh` is what the shell does with a payload within a timeout.
unfoldable pub execute_shell : (Text → ℤ → Execution) → Text → ℤ → ExecResult × Option ExecError
unfolding captured write_all verdict
execute_shell sh payload timeout =
    let limit = timeout_or_default timeout in
    let e = sh payload limit in
    let (exit_code, error) = verdict limit e.past_deadline e.ending in
    (
      record {
        stdout = captured (write_all (new_buffer max_output_bytes) e.stdout);
        stderr = captured (write_all (new_buffer max_output_bytes) e.stderr);
        exit_code = exit_code;
        duration = e.duration;
      },
      error,
    )

-- A command is taken for a success exactly when Run returned nil before the deadline, and its exit code is
-- then 0; it is reported without an exit code exactly when the deadline had passed or Run
-- returned an error that is no exit status, also one of a command that ran. Output of up to 32 KiB
-- is reported whole.
pub execute_shell_outcome :
    (sh : Text → ℤ → Execution) (payload : Text) (timeout : ℤ)
    → let e = sh payload (timeout_or_default timeout) in
      let r = execute_shell sh payload timeout in
      ((r.1 ≡ none) ↔ ((e.past_deadline ≡ false) × (e.ending ≡ succeeded)))
      × ((r.1 ≡ none) → (r.0.exit_code ≡ some (pos 0)))
      × ((r.0.exit_code ≡ none)
          ↔ ((e.past_deadline ≡ true) ⊎ ((msg : Text) × (e.ending ≡ run_error msg))))
      × (length (joined e.stdout) ≤ max_output_bytes → r.0.stdout ≡ joined e.stdout)
      × (length (joined e.stderr) ≤ max_output_bytes → r.0.stderr ≡ joined e.stderr)
unfolding execute_shell
execute_shell_outcome sh payload timeout =
    let limit = timeout_or_default timeout in
    let e = sh payload limit in
    let (good, code0, no_code) = verdict_lem limit e.past_deadline e.ending in
    (
      good,
      code0,
      no_code,
      (captured_lem max_output_bytes e.stdout).1,
      (captured_lem max_output_bytes e.stderr).1,
    )
