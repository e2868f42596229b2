-- ===== src/Store/Invariant.antt =====
-- What holds of every job row between two transactions, and of every row that a statement writes.
use jobqueue.Common.{is_some, All, ℤ, Text, ℕ, ◌≤◌, ◌<◌, ◌≡◌, true, none, arith}
use jobqueue.Jobs.{Job, pending, running, completed, failed, canceled}
use jobqueue.Jobs.Backoff.{BackoffConfig}
use jobqueue.Store.{is_pending, is_running, Db, Clock}
use jobqueue.Store.Rows.{Descending}
use jobqueue.Store.Reads.{new_job}
use jobqueue.Store.Claim.{claim_row}
use jobqueue.Store.Report.{renew_row, complete_row, fail_row, cancel_row, Report}
use jobqueue.Store.Reap.{reap_row, Expired}
pub mod Steps
pub mod Sweep
pub mod Runs
pub mod Staff
pub mod Staffing

-- The attempts stay within the budget, and the nullable columns fit the status.
pub record IsSound (j : Job) : Type 0 where
  pub budget : j.attempts ≤ j.max_attempts
  pub pending_free :
      j.status ≡ pending
      → (j.attempts < j.max_attempts) × (j.worker_id ≡ none) × (j.lease_until ≡ none)
  pub running_held :
      j.status ≡ running
      → (0 < j.attempts) × (is_some j.worker_id ≡ true) × (is_some j.lease_until ≡ true)
  pub completed_by :
      j.status ≡ completed
      → (0 < j.attempts)
        × (is_some j.worker_id ≡ true)
        × (j.lease_until ≡ none)
        × (j.last_error ≡ none)
  pub failed_by :
      j.status ≡ failed
      → (j.attempts ≡ j.max_attempts)
        × (is_some j.worker_id ≡ true)
        × (j.lease_until ≡ none)
        × (is_some j.last_error ≡ true)
  pub canceled_idle :
      j.status ≡ canceled
      → (j.attempts < j.max_attempts) × (j.worker_id ≡ none) × (j.lease_until ≡ none)

pub record IsWellFormed (db : Db) : Type 0 where
  pub ids : Descending db.next_id db.jobs
  pub rows : All IsSound db.jobs

pub new_job-IsSound :
    (c : Clock) (id : ℕ) (type payload : Text) (n : ℕ)
    → 0 < n
    → IsSound (new_job c id type payload n)
unfolding new_job
new_job-IsSound c id type payload n h = ground arith

pub claim_row-IsSound :
    (c : Clock) (w : Text) (lease : ℤ) (j : Job)
    → is_pending j.status ≡ true
    → IsSound j
    → IsSound (claim_row c w lease j)
unfolding claim_row
claim_row-IsSound c w lease j p s = ground arith

pub renew_row-IsSound :
    (c : Clock) (lease : ℤ) (j : Job)
    → is_running j.status ≡ true
    → IsSound j
    → IsSound (renew_row c lease j)
unfolding renew_row
renew_row-IsSound c lease j p s = ground arith

pub complete_row-IsSound :
    (c : Clock) (w : Text) (res : Report) (j : Job)
    → is_running j.status ≡ true
    → IsSound j
    → IsSound (complete_row c w res j)
unfolding complete_row
complete_row-IsSound c w res j p s = ground arith

pub fail_row-IsSound :
    (c : Clock) (wait : ℤ) (w : Text) (res : Report) (j : Job)
    → is_running j.status ≡ true
    → IsSound j
    → IsSound (fail_row c wait w res j)
unfolding fail_row
fail_row-IsSound c wait w res j p s = ground arith

pub cancel_row-IsSound :
    (c : Clock) (j : Job) → is_pending j.status ≡ true → IsSound j → IsSound (cancel_row c j)
unfolding cancel_row
cancel_row-IsSound c j p s = ground arith

-- The sweep's own reading of the attempts decides, so it has to be the row's.
pub reap_row-IsSound :
    (c : Clock) (backoff : BackoffConfig) (e : Expired) (j : Job)
    → is_running j.status ≡ true
    → e.attempts ≡ j.attempts
    → e.max_attempts ≡ j.max_attempts
    → IsSound j
    → IsSound (reap_row c backoff e j)
unfolding reap_row
reap_row-IsSound c backoff e j p a m s = ground arith
