-- ===== src/Store/Report.antt =====
-- internal/jobs/store.go: what a worker reports of its job, and `Cancel`.
pub mod Outcome
pub mod Updates
pub mod Fencing
pub mod Stored
pub mod Repeat
pub mod Cancel
use jobqueue.Common.{
  leb, ◌==◌, if◌then◌else◌, is_some, length, take, leb_ℤ, ℤ, pos, negsuc, Text, text, ℕ, ◌+◌, Bool,
  true, not, ◌&&◌, ◌||◌, Option, none, some, ◌∷◌, ◌++◌,
}
use jobqueue.Jobs.{
  status_eq, Status, Job, WorkerRow, StoreError, Result, pending, completed, failed, canceled,
  not_owned, not_cancelable, no_jobs, database, ok, err,
}
use jobqueue.Jobs.Backoff.{delay, BackoffConfig}
use jobqueue.Store.{
  Tx, ◌>>=◌, return, with_tx, update_job, update_workers, is_worker, is_pending, owner_is, is_held,
  Db, Clock,
}
use jobqueue.Store.Reads.{get}

-- `explainLostRow`.
unfoldable pub explain_lost_row : ℕ → Tx Job
unfolding get
explain_lost_row i = do j ← get i; λ db. (err not_owned, db)

-- The handler of an error: `errors.Is(err, e)` hands over to `m`.
abbrev pub on_error : {A : Type 0} → StoreError → Tx A → Result A × Db → Result A × Db
on_error e m (ok a, db) = (ok a, db)
on_error no_jobs m (err no_jobs, db) = m db
on_error e m (err e', db) = (err e', db)

unfoldable pub renew_row : Clock → ℤ → Job → Job
renew_row c lease j = record j { lease_until = some (c.after lease); updated_at = c.now }

unfoldable pub renew_lease : Clock → ℕ → Text → ℤ → Tx Job
unfolding explain_lost_row update_job renew_row
renew_lease c i w lease db =
    on_error no_jobs (explain_lost_row i) (update_job (is_held i w) (renew_row c lease) no_jobs db)

-- The body of a worker's report, `Result`.
pub record Report : Type 0 where
  pub stdout : Text
  pub stderr : Text
  pub exit_code : Option ℤ
  pub duration_ms : Option ℤ
  pub error : Text

abbrev pub max_result_bytes : ℕ
max_result_bytes = 32768

truncated_mark : Text
truncated_mark = 10 ∷ text "...[truncated]"

unfoldable pub truncate_output : Text → Text
unfolding truncated_mark
truncate_output s =
    if leb (length s) max_result_bytes then s else take max_result_bytes s ++ truncated_mark

unfoldable pub complete_row : Clock → Text → Report → Job → Job
complete_row c w res j = record j {
  status = completed;
  worker_id = some w;
  lease_until = none;
  updated_at = c.now;
  result_stdout = some (truncate_output res.stdout);
  result_stderr = some (truncate_output res.stderr);
  result_exit_code = res.exit_code;
  duration_ms = res.duration_ms;
  last_error = none;
}

-- attempts >= max_attempts.
abbrev pub is_exhausted : Job → Bool
is_exhausted j = leb j.max_attempts j.attempts

unfoldable pub fail_row : Clock → ℤ → Text → Report → Job → Job
fail_row c wait w res j = record j {
  status = if is_exhausted j then failed else pending;
  worker_id = if is_exhausted j then some w else none;
  lease_until = none;
  available_at = c.after wait;
  updated_at = c.now;
  last_error = some (truncate_output res.error);
  result_stdout = some (truncate_output res.stdout);
  result_stderr = some (truncate_output res.stderr);
  result_exit_code = res.exit_code;
  duration_ms = res.duration_ms;
}

-- The worker has one more finished attempt, and is idle.
unfoldable pub idle_row : Clock → WorkerRow → WorkerRow
idle_row c r = record r {
  jobs_processed = r.jobs_processed + 1;
  current_job_id = none;
  last_heartbeat = c.now;
}

-- The numbers of the type INTEGER, which the column of the exit code has.
abbrev pub fits_integer : Option ℤ → Bool
fits_integer none = true
fits_integer (some n) = leb_ℤ (negsuc 2147483647) n && leb_ℤ n (pos 2147483647)

-- The transaction of `finish`, which `Fail` repeats: the guarded UPDATE of the job and the worker's
-- counters. `no_jobs` says that no row matched. An exit code that is no INTEGER is refused before the
-- statement looks at a row.
unfoldable pub report_tx : Clock → ℕ → Text → Option ℤ → (Job → Job) → Tx Job
unfolding update_job update_workers with_tx idle_row
report_tx c i w exit_code row db =
    let stored =
      with_tx
        (do
          j ← update_job (is_held i w) row no_jobs
          n ← update_workers (is_worker w) (idle_row c)
          return j)
        db in
    if fits_integer exit_code then stored else (err database, db)

-- Why a guarded terminal update matched no row.
abbrev pub replays : Text → Status → Job → Bool
replays w want cur =
    (status_eq cur.status want && owner_is w cur.worker_id)
    || (status_eq want failed && (is_pending cur.status && not (is_some cur.worker_id)))

abbrev pub replay_result : Text → Status → Job → Result Job
replay_result w want cur = if replays w want cur then ok cur else err not_owned

unfoldable pub replay_or_conflict : ℕ → Text → Status → Tx Job
unfolding get
replay_or_conflict i w want = do cur ← get i; λ db. (replay_result w want cur, db)

unfoldable pub complete : Clock → ℕ → Text → Report → Tx Job
unfolding report_tx replay_or_conflict complete_row
complete c i w res db =
    on_error no_jobs (replay_or_conflict i w completed)
      (report_tx c i w res.exit_code (complete_row c w res) db)

-- What follows the read of the attempts in `Fail`. Other transactions may run between the two.
unfoldable pub fail_write : Clock → BackoffConfig → ℕ → ℕ → Text → Report → Tx Job
unfolding report_tx replay_or_conflict fail_row
fail_write c backoff attempts i w res db =
    on_error no_jobs (replay_or_conflict i w failed)
      (report_tx c i w res.exit_code (fail_row c (delay backoff (pos attempts)) w res) db)

unfoldable pub fail : Clock → BackoffConfig → ℕ → Text → Report → Tx Job
unfolding fail_write get
fail c backoff i w res = do cur ← get i; fail_write c backoff cur.attempts i w res

unfoldable pub cancel_row : Clock → Job → Job
cancel_row c j = record j { status = canceled; updated_at = c.now; lease_until = none }

abbrev pub cancel_result : Job → Result Job
cancel_result cur = if status_eq cur.status canceled then ok cur else err not_cancelable

-- Why the guarded UPDATE of `Cancel` matched no row.
unfoldable pub explain_not_canceled : ℕ → Tx Job
unfolding get
explain_not_canceled i = do cur ← get i; λ db. (cancel_result cur, db)

unfoldable pub cancel : Clock → ℕ → Tx Job
unfolding explain_not_canceled update_job cancel_row
cancel c i db =
    on_error no_jobs (explain_not_canceled i)
      (update_job (λ j. j.id == i && is_pending j.status) (cancel_row c) no_jobs db)
