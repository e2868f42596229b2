-- ===== src/Api.antt =====
-- internal/api: what the server answers. The configuration, replies and error codes, and how a store
-- error becomes one (errors.go).
pub mod Requests
pub mod Jobs
pub mod Reports
pub mod Workers
pub mod Server
pub mod Middleware
pub mod Chain
pub mod Writer
pub mod Recovery
pub mod Reaper
use jobqueue.Common.{ℤ, pos, Text, text, ℕ, List, []}
use jobqueue.Jobs.{
  Job, Worker, StoreError, Result, not_claimable, not_owned, not_cancelable, no_jobs,
  unknown_worker, database, ok, err,
}
use jobqueue.Jobs.Validate.{Invalid}
use jobqueue.Store.{Db}
use jobqueue.Store.Reads.{Stats}

-- server.go, Config; durations in nanoseconds.
pub record ServerConfig : Type 0 where
  pub default_lease : ℤ
  pub min_lease : ℤ
  pub max_lease : ℤ
  pub heartbeat_timeout : ℤ
  pub auth_token : Text
  pub max_request_bytes : ℕ

unfoldable pub default_config : ServerConfig
default_config = record {
  default_lease = pos 30_000_000_000;
  min_lease = pos 5_000_000_000;
  max_lease = pos 600_000_000_000;
  heartbeat_timeout = pos 60_000_000_000;
  auth_token = [];
  max_request_bytes = 262144;
}

pub data Code : Type 0 where
  bad_request not_found conflict unauthorized no_jobs_available internal_error payload_too_large :
      Code

-- The wire form of a code.
unfoldable pub code_text : Code → Text
code_text bad_request = text "bad_request"
code_text not_found = text "not_found"
code_text conflict = text "conflict"
code_text unauthorized = text "unauthorized"
code_text no_jobs_available = text "no_jobs_available"
code_text internal_error = text "internal_error"
code_text payload_too_large = text "payload_too_large"

-- The message of an error reply: a literal of the source, the decoder's own text behind one, or the
-- message of `ValidateNew`.
pub data Message : Type 0 where
  literal : Text → Message
  malformed_json : Text → Message
  invalid_job : Invalid → Message

pub data Body : Type 0 where
  error_body : Code → Message → Body
  job_body : Job → Body
  jobs_body : List Job → ℕ → Body
  worker_body : Worker → Body
  workers_body : List Worker → ℕ → Body
  stats_body : Stats → ℕ → ℕ → Body
  health_body : Body

-- The status and the JSON body.
pub record Reply : Type 0 where
  pub status : ℕ
  pub body : Body

abbrev pub write_json : ℕ → Body → Reply
write_json status body = record { status = status; body = body }

abbrev pub write_error : ℕ → Code → Message → Reply
write_error status code msg = write_json status (error_body code msg)

unfoldable pub unknown_worker_message : Text
unknown_worker_message = text "unknown worker: register first"

unfoldable pub write_store_error : StoreError → Reply
write_store_error StoreError.not_found = write_error 404 not_found (literal (text "job not found"))
write_store_error no_jobs = write_error 404 no_jobs_available (literal (text "no jobs available"))
write_store_error unknown_worker = write_error 404 not_found (literal unknown_worker_message)
write_store_error not_owned = write_error 409 conflict (
    literal
      (text "job is not RUNNING under this worker (lease may have expired and been reassigned)"))
write_store_error not_cancelable =
    write_error 409 conflict (literal (text "only PENDING jobs can be canceled"))
write_store_error not_claimable = write_error 409 conflict (literal (text "job is not claimable"))
write_store_error database = write_error 500 internal_error (literal (text "internal server error"))

-- A handler reads and writes the database and replies.
abbrev pub Handler : Type 0
Handler = Db → Reply × Db

-- The end of most handlers: the error of the store, or a reply that holds its value.
abbrev pub reply_with : {A : Type 0} → (A → Reply) → Result A × Db → Reply × Db
reply_with f (ok a, db) = (f a, db)
reply_with f (err e, db) = (write_store_error e, db)

abbrev pub refuse : Text → Reply
refuse msg = write_error 400 bad_request (literal msg)
