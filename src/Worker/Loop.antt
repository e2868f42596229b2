-- ===== src/Worker/Loop.antt =====
-- internal/worker/worker.go: the decisions of the claim loop and of the renewal loop, and the execution
-- of a job.
use jobqueue.Common.{
  ltb, ◌==◌, if◌then◌else◌, Bool-cases, ℤ, pos, negsuc, Text, text_eq, text_eq_iff, suc, ◌+◌, ◌-◌,
  ◌*◌, ◌/◌, ◌%◌, ◌^◌, ◌≡◌, refl, ◌⊎◌, inl, inr, Bool, true, false, Option, none, some, List, [],
  ◌∷◌,
}
use jobqueue.Jobs.{type_shell, Job}
use jobqueue.Jobs.Backoff.{int64}
use jobqueue.Store.Report.{Report}
use jobqueue.Worker.{WorkerConfig}
use jobqueue.Worker.Client.{ClientError, no_jobs_error, unknown_worker_error, api_error, transport}
use jobqueue.Worker.Executor.{
  timeout_or_default, execute_shell, execute_shell_outcome, ExecResult, Execution, ExecError,
  succeeded,
}

-- What `Run` does with the answer to a claim: execute, wait about a duration and claim again, register
-- again, or stop.
pub data Next : Type 0 where
  works : Job → Next
  waits : ℤ → Next
  registers_again stops : Next

-- 2 * d, over int64.
abbrev twice : ℤ → ℤ
unfolding int64
twice (pos n) = int64 (2 * n)
twice (negsuc n) = int64 (2 ^ 64 - (2 * n + 2) % 2 ^ 64)

-- The switch of `Run`; `ended` tells whether the context has ended by then.
unfoldable pub after_claim : WorkerConfig → Bool → ClientError ⊎ Job → Next
unfolding int64
after_claim cfg ended (inr job) = works job
after_claim cfg ended (inl no_jobs_error) = waits cfg.poll_interval
after_claim cfg ended (inl unknown_worker_error) = registers_again
after_claim cfg ended (inl (api_error status code msg)) =
    if ended then stops else waits (twice cfg.poll_interval)
after_claim cfg ended (inl (transport msg)) =
    if ended then stops else waits (twice cfg.poll_interval)

-- What renewLoop does behind a tick: go on, or end, having cancelled the job or not.
pub data Renewal : Type 0 where
  goes_on ends abandons : Renewal

unfoldable pub after_renewal : Bool → Option ClientError → Renewal
after_renewal ended none = goes_on
after_renewal ended (some (api_error status code msg)) =
    if ended then ends else if status == 409 then abandons else goes_on
after_renewal ended (some _) = if ended then ends else goes_on

-- The loop over its ticks: whether the job is cancelled.
unfoldable pub renew_loop : List (Bool × Option ClientError) → Bool
unfolding after_renewal
renew_loop [] = false
renew_loop ((ended, answer) ∷ ticks) =
    let later = renew_loop ticks in
    elim (after_renewal ended answer) [ goes_on ↦ later | ends ↦ false | abandons ↦ true ]

-- The error of an execution, and whether the worker was shutting down.
pub data Cause : Type 0 where
  unsupported_type : Text → Cause
  failed_with : ExecError → Cause
  shut_down : Cause → Cause

-- The report that `process` sends.
pub data Outcome : Type 0 where
  reports_completion : ExecResult → Outcome
  reports_failure : ExecResult → Cause → Outcome

-- The zero ExecResult of a job that is not executed.
abbrev no_result : ExecResult
no_result = record { stdout = []; stderr = []; exit_code = none; duration = pos 0 }

abbrev cause_of : Bool → Cause → Cause
cause_of true cause = shut_down cause
cause_of false cause = cause

abbrev outcome_of : Bool → ExecResult × Option ExecError → Outcome
outcome_of stopping (res, none) = reports_completion res
outcome_of stopping (res, some e) = reports_failure res (cause_of stopping (failed_with e))

-- `stopping` tells whether the worker's context has ended behind the execution.
unfoldable pub process : (Text → ℤ → Execution) → WorkerConfig → Bool → Job → Outcome
unfolding text_eq execute_shell
process sh cfg stopping job =
    if text_eq job.type type_shell
    then outcome_of stopping (execute_shell sh job.payload cfg.job_timeout)
    else reports_failure no_result (cause_of stopping (unsupported_type job.type))

-- DurationMS.
abbrev pub duration_ms : ExecResult → ℤ
duration_ms r = elim r.duration [
  | pos n ↦ pos (n / 1_000_000)
  | negsuc n ↦ if ltb (suc n) 1_000_000 then pos 0 else negsuc (suc n / 1_000_000 - 1)
]

-- The body that `Complete` and `Fail` of the client send.
unfoldable pub result_sent : ExecResult → Text → Report
result_sent r error = record {
  stdout = r.stdout;
  stderr = r.stderr;
  exit_code = r.exit_code;
  duration_ms = some (duration_ms r);
  error = error;
}

outcome_done :
    (stopping : Bool) (r : ExecResult × Option ExecError)
    → r.1 ≡ none
    → outcome_of stopping r ≡ reports_completion r.0
outcome_done stopping (res, none) h = refl
outcome_done stopping (res, some e) h = absurd (cc h)

outcome_clean :
    (stopping : Bool) (r : ExecResult × Option ExecError) (res : ExecResult)
    → outcome_of stopping r ≡ reports_completion res
    → r.1 ≡ none
outcome_clean stopping (res, none) res' h = refl
outcome_clean stopping (res, some e) res' h = absurd (cc h)

-- A job is reported complete exactly when it is a shell job whose command ended without an error
-- before its deadline, and what is then sent has the exit code 0; every other execution is reported
-- as a failure.
pub process_outcome :
    (sh : Text → ℤ → Execution) (cfg : WorkerConfig) (stopping : Bool) (job : Job)
    → let e = sh job.payload (timeout_or_default cfg.job_timeout) in
      (((job.type ≡ type_shell) × (e.past_deadline ≡ false) × (e.ending ≡ succeeded))
        → (res : ExecResult) × (process sh cfg stopping job ≡ reports_completion res)
          × ((result_sent res []).exit_code ≡ some (pos 0)))
      × ((res : ExecResult)
          → process sh cfg stopping job ≡ reports_completion res
          → (job.type ≡ type_shell) × (e.past_deadline ≡ false) × (e.ending ≡ succeeded))
unfolding process result_sent
process_outcome sh cfg stopping job =
    let r = execute_shell sh job.payload cfg.job_timeout in
    let (success, code0, _, _, _) = execute_shell_outcome sh job.payload cfg.job_timeout in
    (
      λ h.
          let fine : r.1 ≡ none = success.1 (h.1, h.2) in
          let shell = (text_eq_iff job.type type_shell).1 h.0 in
          (r.0, rw shell (outcome_done stopping r fine), code0 fine),
      λ res h. elim (Bool-cases (text_eq job.type type_shell)) [
        | inl y ↦
            let done = success.0 (outcome_clean stopping r res (rw y at h)) in
            ((text_eq_iff job.type type_shell).0 y, done.0, done.1)
        | inr n ↦ let other = (rw n at h) in absurd (cc other)
      ],
    )
