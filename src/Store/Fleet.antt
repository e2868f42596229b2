-- ===== src/Store/Fleet.antt =====
-- internal/jobs/store.go: `RegisterWorker`, `Heartbeat`, `ListWorkers`.
use jobqueue.Common.{ltb, ℤ, Text, sort_by, true, none, some, List, ◌∷◌, map}
use jobqueue.Jobs.{WorkerRow, Worker, not_found, ok, err}
use jobqueue.Store.{find, update, Tx, is_worker, Db, Clock}

unfoldable pub new_worker : Clock → Text → Text → WorkerRow
new_worker c id hostname = record {
  id = id;
  hostname = hostname;
  registered_at = c.now;
  last_heartbeat = c.now;
  jobs_processed = 0;
  current_job_id = none;
}

unfoldable pub register_row : Clock → Text → WorkerRow → WorkerRow
register_row c hostname r = record r {
  hostname = hostname;
  last_heartbeat = c.now;
  current_job_id = none;
}

abbrev alive_worker : WorkerRow → Worker
alive_worker r = record { row = r; alive = true }

-- INSERT … ON CONFLICT (id) DO UPDATE.
unfoldable pub register_worker : Clock → Text → Text → Tx Worker
unfolding find update new_worker register_row
register_worker c id hostname db = elim (find (is_worker id) db.workers) [
  | none ↦ (
    ok (alive_worker (new_worker c id hostname)),
    record db { workers = new_worker c id hostname ∷ db.workers },
  )
  | some r ↦ (
    ok (alive_worker (register_row c hostname r)),
    record db { workers = update (is_worker id) (register_row c hostname) db.workers },
  )
]

unfoldable pub heartbeat_row : Clock → WorkerRow → WorkerRow
heartbeat_row c r = record r { last_heartbeat = c.now }

unfoldable pub heartbeat : Clock → Text → Tx Worker
unfolding find update heartbeat_row
heartbeat c id db = elim (find (is_worker id) db.workers) [
  | none ↦ (err not_found, db)
  | some r ↦ (
    ok (alive_worker (heartbeat_row c r)),
    record db { workers = update (is_worker id) (heartbeat_row c) db.workers },
  )
]

-- last_heartbeat > now() - make_interval(secs => $1).
abbrev with_liveness : Clock → ℤ → WorkerRow → Worker
with_liveness c timeout r = record { row = r; alive = ltb (c.before timeout) r.last_heartbeat }

unfoldable pub list_workers : Clock → ℤ → Db → List Worker
list_workers c timeout db =
    map (with_liveness c timeout) (sort_by (λ r. r.registered_at) db.workers)
