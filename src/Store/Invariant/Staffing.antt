-- ===== src/Store/Invariant/Staffing.antt =====
-- The calls of the store, one by one and in a run, and the workers of the running jobs.
use jobqueue.Common.{
  leb, ◌==◌, Bool-cases, Option-cases, All, ℤ, Text, text_eq, ℕ, ◌≡◌, refl, inl, inr, Bool, false,
  ◌&&◌, List, [], ◌∷◌,
}
use jobqueue.Jobs.{Job, WorkerRow}
use jobqueue.Jobs.Backoff.{BackoffConfig}
use jobqueue.Store.{find, update, is_worker, is_running, Db, Clock}
use jobqueue.Store.Rows.{All-mono}
use jobqueue.Store.Reap.{
  batch_limit, expired_jobs, reap_row, release_row, works_on, reap_one, reap_all,
  reap_expired_leases, Expired,
}
use jobqueue.Store.Fleet.{new_worker, register_row, register_worker, heartbeat_row, heartbeat}
use jobqueue.Store.Machine.{
  step, run, Call, creates, claims, renews, completes, fails, cancels, reaps, registers, beats,
}
use jobqueue.Store.Invariant.{IsWellFormed}
use jobqueue.Store.Invariant.Runs.{step-IsWellFormed}
use jobqueue.Store.Invariant.Staff.{
  IsStaffed, Grows, cons-Grows, update-Grows, update-IsStaffed, AreStaffed, same-Grows,
  create-AreStaffed, claim-AreStaffed, complete-AreStaffed, fail_write-AreStaffed,
  renew_lease-AreStaffed, cancel-AreStaffed,
}

module _ (c : Clock) (backoff : BackoffConfig) where
  reap_row_stops : (e : Expired) (j : Job) → is_running (reap_row c backoff e j).status ≡ false
  unfolding reap_row
  reap_row_stops e j = elim (Bool-cases (leb e.max_attempts e.attempts)) [
    | inl y ↦ rw y refl
    | inr n ↦ rw n refl
  ]

  released-Grows : (e : Expired) (db : Db) → Grows db.workers (reap_one c backoff e db).workers
  unfolding reap_one release_row
  released-Grows e db = elim (Bool-cases (text_eq e.worker [])) [
    | inl y ↦ rw y (same-Grows db.workers)
    | inr n ↦ rw n (update-Grows (works_on e.worker e.id) release_row (λ r. refl) db.workers)
  ]

  reap_one-AreStaffed :
      (e : Expired) (db : Db) → AreStaffed db → AreStaffed (reap_one c backoff e db)
  unfolding reap_one
  reap_one-AreStaffed e db v =
      update-IsStaffed db.workers (reap_one c backoff e db).workers (released-Grows e db)
        (λ j. j.id == e.id && is_running j.status) (reap_row c backoff e)
        (λ j y h r. absurd (cc (r, reap_row_stops e j))) db.jobs v

  reap_all-AreStaffed :
      (es : List Expired) (db : Db) → AreStaffed db → AreStaffed (reap_all c backoff es db)
  unfolding reap_all
  reap_all-AreStaffed [] db v = v
  reap_all-AreStaffed (e ∷ es) db v =
      reap_all-AreStaffed es (reap_one c backoff e db) (reap_one-AreStaffed e db v)

  reap-AreStaffed :
      (locked : ℕ → Bool) (batch : ℤ) (db : Db)
      → AreStaffed db
      → AreStaffed (reap_expired_leases c backoff locked batch db).1
  unfolding reap_expired_leases
  reap-AreStaffed locked batch db v =
      reap_all-AreStaffed (expired_jobs c.now locked (batch_limit batch) db.jobs) db v

grown-IsStaffed :
    (ws ws' : List WorkerRow) (js : List Job)
    → Grows ws ws'
    → All (IsStaffed ws) js
    → All (IsStaffed ws') js
grown-IsStaffed ws ws' js grows all =
    All-mono (IsStaffed ws) (IsStaffed ws') (λ j h r. grows j.worker_id (h r)) js all

register_worker-AreStaffed :
    (c : Clock) (w hostname : Text) (db : Db)
    → AreStaffed db
    → AreStaffed (register_worker c w hostname db).1
unfolding register_worker register_row
register_worker-AreStaffed c w hostname db v = elim (Option-cases (find (is_worker w) db.workers)) [
  | inl n ↦
      rw (n, register_worker)
        (grown-IsStaffed db.workers (new_worker c w hostname ∷ db.workers) db.jobs
          (cons-Grows (new_worker c w hostname) db.workers) v)
  | inr (r, n) ↦
      rw (n, register_worker)
        (grown-IsStaffed db.workers (update (is_worker w) (register_row c hostname) db.workers)
          db.jobs (update-Grows (is_worker w) (register_row c hostname) (λ r. refl) db.workers) v)
]

heartbeat-AreStaffed :
    (c : Clock) (w : Text) (db : Db) → AreStaffed db → AreStaffed (heartbeat c w db).1
unfolding heartbeat heartbeat_row
heartbeat-AreStaffed c w db v = elim (Option-cases (find (is_worker w) db.workers)) [
  | inl n ↦ rw (n, heartbeat) v
  | inr (r, n) ↦
      rw (n, heartbeat)
        (grown-IsStaffed db.workers (update (is_worker w) (heartbeat_row c) db.workers) db.jobs
          (update-Grows (is_worker w) (heartbeat_row c) (λ r. refl) db.workers) v)
]

module _ (backoff : BackoffConfig) where
  step-AreStaffed :
      (db : Db) (s : Clock × Call)
      → AreStaffed db
      → IsWellFormed db
      → AreStaffed (step backoff db s)
  unfolding step
  step-AreStaffed db (c, creates type payload n) v wf = create-AreStaffed c type payload n db v
  step-AreStaffed db (c, claims locked w lease) v wf = claim-AreStaffed c locked w lease db v wf
  step-AreStaffed db (c, renews i w lease) v wf = renew_lease-AreStaffed c i w lease db v
  step-AreStaffed db (c, completes i w res) v wf = complete-AreStaffed c i w res db v
  step-AreStaffed db (c, fails n i w res) v wf = fail_write-AreStaffed c backoff n i w res db v
  step-AreStaffed db (c, cancels i) v wf = cancel-AreStaffed c i db v
  step-AreStaffed db (c, reaps locked batch) v wf = reap-AreStaffed c backoff locked batch db v
  step-AreStaffed db (c, registers w hostname) v wf = register_worker-AreStaffed c w hostname db v
  step-AreStaffed db (c, beats w) v wf = heartbeat-AreStaffed c w db v

  -- In every run of the calls of the store that starts with well-formed tables where each RUNNING job
  -- has a registered worker, each RUNNING job has one at the end, whatever claims, reports, sweeps and
  -- registrations come in between and in whatever order.
  pub run-AreStaffed :
      (db : Db) (ss : List (Clock × Call))
      → AreStaffed db
      → IsWellFormed db
      → AreStaffed (run backoff db ss)
  unfolding run
  run-AreStaffed db [] v wf = v
  run-AreStaffed db (s ∷ ss) v wf =
      run-AreStaffed (step backoff db s) ss (step-AreStaffed db s v wf)
        (step-IsWellFormed backoff db s wf)
