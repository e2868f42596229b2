-- ===== src/Store/Invariant/Runs.antt =====
-- The invariant of every reachable database.
use jobqueue.Common.{Option-cases, Text, inl, inr, List, [], ◌∷◌}
use jobqueue.Jobs.Backoff.{BackoffConfig}
use jobqueue.Store.{find, is_worker, Db, Clock}
use jobqueue.Store.Fleet.{register_worker, heartbeat}
use jobqueue.Store.Machine.{
  step, run, fresh, Call, creates, claims, renews, completes, fails, cancels, reaps, registers,
  beats,
}
use jobqueue.Store.Invariant.{IsWellFormed}
use jobqueue.Store.Invariant.Steps.{
  create-IsWellFormed, claim-IsWellFormed, complete-IsWellFormed, fail_write-IsWellFormed,
  renew_lease-IsWellFormed, cancel-IsWellFormed,
}
use jobqueue.Store.Invariant.Sweep.{reap-IsWellFormed}

register_worker-IsWellFormed :
    (c : Clock) (w hostname : Text) (db : Db)
    → IsWellFormed db
    → IsWellFormed (register_worker c w hostname db).1
unfolding register_worker
register_worker-IsWellFormed c w hostname db v =
    elim (Option-cases (find (is_worker w) db.workers)) [
      | inl e ↦ rw (e, register_worker) (record { ids = v.ids; rows = v.rows })
      | inr (r, e) ↦ rw (e, register_worker) (record { ids = v.ids; rows = v.rows })
    ]

heartbeat-IsWellFormed :
    (c : Clock) (w : Text) (db : Db) → IsWellFormed db → IsWellFormed (heartbeat c w db).1
unfolding heartbeat
heartbeat-IsWellFormed c w db v = elim (Option-cases (find (is_worker w) db.workers)) [
  | inl e ↦ rw (e, heartbeat) (record { ids = v.ids; rows = v.rows })
  | inr (r, e) ↦ rw (e, heartbeat) (record { ids = v.ids; rows = v.rows })
]

module _ (backoff : BackoffConfig) where
  -- Every call of the store, at any time, under any locks, keeps the database well formed: the ids are
  -- distinct and below the next one, no job has more attempts than its budget, and the nullable columns
  -- fit the status as `IsSound` says.
  pub step-IsWellFormed :
      (db : Db) (s : Clock × Call) → IsWellFormed db → IsWellFormed (step backoff db s)
  unfolding step
  step-IsWellFormed db (c, creates type payload n) v = create-IsWellFormed c type payload n db v
  step-IsWellFormed db (c, claims locked w lease) v = claim-IsWellFormed c locked w lease db v
  step-IsWellFormed db (c, renews i w lease) v = renew_lease-IsWellFormed c i w lease db v
  step-IsWellFormed db (c, completes i w res) v = complete-IsWellFormed c i w res db v
  step-IsWellFormed db (c, fails attempts i w res) v =
      fail_write-IsWellFormed c backoff attempts i w res db v
  step-IsWellFormed db (c, cancels i) v = cancel-IsWellFormed c i db v
  step-IsWellFormed db (c, reaps locked batch) v = reap-IsWellFormed c backoff locked batch db v
  step-IsWellFormed db (c, registers w hostname) v = register_worker-IsWellFormed c w hostname db v
  step-IsWellFormed db (c, beats w) v = heartbeat-IsWellFormed c w db v

  pub run-IsWellFormed :
      (db : Db) (ss : List (Clock × Call)) → IsWellFormed db → IsWellFormed (run backoff db ss)
  unfolding run
  run-IsWellFormed db [] v = v
  run-IsWellFormed db (s ∷ ss) v =
      run-IsWellFormed (step backoff db s) ss (step-IsWellFormed db s v)

pub fresh-IsWellFormed : IsWellFormed fresh
fresh-IsWellFormed = record { ids = tt; rows = tt }
