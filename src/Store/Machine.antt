-- ===== src/Store/Machine.antt =====
-- The store as a machine: the calls of internal/jobs/store.go that write, each an atomic transaction
-- with its clock and the rows that other transactions hold locked. `Fail` reads the attempts before its
-- transaction, so its write takes any value for them.
use jobqueue.Common.{ℤ, Text, ℕ, Bool, List, [], ◌∷◌}
use jobqueue.Jobs.Backoff.{BackoffConfig}
use jobqueue.Store.{Db, Clock}
use jobqueue.Store.Reads.{create}
use jobqueue.Store.Claim.{claim}
use jobqueue.Store.Report.{renew_lease, complete, fail_write, cancel, Report}
use jobqueue.Store.Reap.{reap_expired_leases}
use jobqueue.Store.Fleet.{register_worker, heartbeat}

pub data Call : Type 0 where
  creates : Text → Text → ℤ → Call
  claims : (ℕ → Bool) → Text → ℤ → Call
  renews : ℕ → Text → ℤ → Call
  completes : ℕ → Text → Report → Call
  fails : ℕ → ℕ → Text → Report → Call
  cancels : ℕ → Call
  reaps : (ℕ → Bool) → ℤ → Call
  registers : Text → Text → Call
  beats : Text → Call

module _ (backoff : BackoffConfig) where
  unfoldable pub step : Db → Clock × Call → Db
  step db (c, creates type payload n) = (create c type payload n db).1
  step db (c, claims locked w lease) = (claim c locked w lease db).1
  step db (c, renews i w lease) = (renew_lease c i w lease db).1
  step db (c, completes i w res) = (complete c i w res db).1
  step db (c, fails attempts i w res) = (fail_write c backoff attempts i w res db).1
  step db (c, cancels i) = (cancel c i db).1
  step db (c, reaps locked batch) = (reap_expired_leases c backoff locked batch db).1
  step db (c, registers w hostname) = (register_worker c w hostname db).1
  step db (c, beats w) = (heartbeat c w db).1

  unfoldable pub run : Db → List (Clock × Call) → Db
  unfolding step
  run db [] = db
  run db (s ∷ ss) = run (step db s) ss

-- The database after the migration.
abbrev pub fresh : Db
fresh = record { jobs = []; workers = []; next_id = 1 }
