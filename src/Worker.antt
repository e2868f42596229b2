-- ===== src/Worker.antt =====
-- internal/worker: the process that claims jobs, runs them and reports. Its settings (worker.go).
pub mod Client
pub mod Calls
pub mod Executor
pub mod Buffer
pub mod Delivery
pub mod Exactly
pub mod Loop
pub mod Run
pub mod Attempts
pub mod Registration
use jobqueue.Common.{if◌then◌else◌, leb_ℤ, ℤ, pos, Text}

-- Config; durations in nanoseconds.
pub record WorkerConfig : Type 0 where
  pub server_url : Text
  pub worker_id : Text
  pub hostname : Text
  pub token : Text
  pub lease : ℤ
  pub poll_interval : ℤ
  pub heartbeat_interval : ℤ
  pub job_timeout : ℤ

abbrev or_default : ℤ → ℤ → ℤ
or_default d n = if leb_ℤ n (pos 0) then d else n

-- The settings of the worker that `New` builds.
unfoldable pub new : WorkerConfig → WorkerConfig
new cfg = record cfg {
  lease = or_default (pos 30_000_000_000) cfg.lease;
  poll_interval = or_default (pos 1_000_000_000) cfg.poll_interval;
  heartbeat_interval = or_default (pos 10_000_000_000) cfg.heartbeat_interval;
  job_timeout = or_default (pos 300_000_000_000) cfg.job_timeout;
}
