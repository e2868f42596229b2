-- ===== src/Jobs.antt =====
-- internal/jobs/job.go: the job model. Times are microseconds of the database's clock, durations
-- are Go's int64 nanoseconds, and a nullable column is an Option.
pub mod Validate
pub mod Backoff
use jobqueue.Common.{ℕ, ℤ, ◌≡◌, Bool, true, false, Option, none, some, Text, text, text_eq, ◌||◌}

pub data Status : Type 0 where
  pending running completed failed canceled : Status

-- The string that the status column holds.
unfoldable pub status_text : Status → Text
status_text pending = text "PENDING"
status_text running = text "RUNNING"
status_text completed = text "COMPLETED"
status_text failed = text "FAILED"
status_text canceled = text "CANCELED"

unfoldable pub valid_status : Text → Bool
unfolding status_text text_eq
valid_status s =
    text_eq s (status_text pending)
    || text_eq s (status_text running)
    || text_eq s (status_text completed)
    || text_eq s (status_text failed)
    || text_eq s (status_text canceled)

abbrev pub status_eq : Status → Status → Bool
status_eq pending pending = true
status_eq running running = true
status_eq completed completed = true
status_eq failed failed = true
status_eq canceled canceled = true
status_eq _ _ = false

pub record Job : Type 0 where
  pub id : ℕ
  pub type : Text
  pub payload : Text
  pub status : Status
  pub attempts : ℕ
  pub max_attempts : ℕ
  pub created_at : ℕ
  pub updated_at : ℕ
  pub available_at : ℕ
  pub worker_id : Option Text
  pub lease_until : Option ℕ
  pub last_error : Option Text
  pub result_stdout : Option Text
  pub result_stderr : Option Text
  pub result_exit_code : Option ℤ
  pub duration_ms : Option ℤ

-- A row of the workers table.
pub record WorkerRow : Type 0 where
  pub id : Text
  pub hostname : Text
  pub registered_at : ℕ
  pub last_heartbeat : ℕ
  pub jobs_processed : ℕ
  pub current_job_id : Option ℕ

-- A worker as the store returns it: the row, and the liveness derived at query time.
pub record Worker : Type 0 where
  pub row : WorkerRow
  pub alive : Bool

-- The store's sentinel errors. `database` is any error of the driver, of which the model has the
-- violated constraints.
pub data StoreError : Type 0 where
  not_found not_claimable not_owned not_cancelable no_jobs unknown_worker database : StoreError

-- The type of the jobs that a worker can run.
abbrev pub type_shell : Text
type_shell = text "shell"

abbrev pub max_payload_bytes : ℕ
max_payload_bytes = 65536

-- What Go returns as a value and an error.
pub data Result {ℓ} (A : Type ℓ) : Type ℓ where
  ok : A → Result A
  err : StoreError → Result A
