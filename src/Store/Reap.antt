-- ===== src/Store/Reap.antt =====
-- internal/jobs/store.go: `ReapExpiredLeases`.
pub mod Found
pub mod Effect
use jobqueue.Common.{
  ltb, leb, ◌==◌, if◌then◌else◌, take, select, pos_part, leb_ℤ, ℤ, pos, Text, text, text_eq,
  sort_by, ℕ, Bool, false, not, ◌&&◌, Option, none, some, List, [], ◌∷◌, ◌++◌, map,
}
use jobqueue.Jobs.{status_eq, Status, Job, WorkerRow, pending, failed, ok}
use jobqueue.Jobs.Backoff.{delay, BackoffConfig}
use jobqueue.Store.{update, Tx, is_running, Db, Clock}

-- What the sweep reads of an expired job; a NULL worker is the empty string.
pub record Expired : Type 0 where
  pub id : ℕ
  pub attempts : ℕ
  pub max_attempts : ℕ
  pub worker : Text

pub record Reaped : Type 0 where
  pub id : ℕ
  pub attempts : ℕ
  pub status : Status
  pub worker : Text

-- lease_until < now(); a NULL is not.
abbrev pub lease_over : ℕ → Option ℕ → Bool
lease_over now none = false
lease_over now (some t) = ltb t now

abbrev pub is_expired : ℕ → (ℕ → Bool) → Job → Bool
is_expired now locked j = (is_running j.status && lease_over now j.lease_until) && not (locked j.id)

abbrev or_empty : Option Text → Text
or_empty none = []
or_empty (some w) = w

abbrev pub lease_key : Job → ℕ
lease_key j = elim j.lease_until [ none ↦ 0 | some t ↦ t ]

abbrev pub expired_of : Job → Expired
expired_of j = record {
  id = j.id;
  attempts = j.attempts;
  max_attempts = j.max_attempts;
  worker = or_empty j.worker_id;
}

abbrev pub batch_limit : ℤ → ℕ
batch_limit batch = if leb_ℤ batch (pos 0) then 100 else pos_part batch

-- The rows that the SELECT locks and returns.
unfoldable pub expired_jobs : ℕ → (ℕ → Bool) → ℕ → List Job → List Expired
expired_jobs now locked limit js =
    map expired_of (take limit (sort_by lease_key (select (is_expired now locked) js)))

abbrev pub next_status : Expired → Status
next_status e = if leb e.max_attempts e.attempts then failed else pending

unfoldable pub lease_expired_error : Text → Text
lease_expired_error w = text "lease expired (worker " ++ (w ++ text " stopped reporting)")

unfoldable pub reap_row : Clock → BackoffConfig → Expired → Job → Job
reap_row c backoff e j = record j {
  status = next_status e;
  worker_id = if status_eq (next_status e) failed then j.worker_id else none;
  lease_until = none;
  available_at = c.after (delay backoff (pos e.attempts));
  last_error = some (lease_expired_error e.worker);
  updated_at = c.now;
}

unfoldable pub release_row : WorkerRow → WorkerRow
release_row r = record r { current_job_id = none }

abbrev pub works_on : Text → ℕ → WorkerRow → Bool
works_on w i r = text_eq r.id w && (elim r.current_job_id [ none ↦ false | some k ↦ k == i ])

-- One round of the loop over the rows found.
unfoldable pub reap_one : Clock → BackoffConfig → Expired → Db → Db
unfolding reap_row update release_row
reap_one c backoff e db = record db {
  jobs = update (λ j. j.id == e.id && is_running j.status) (reap_row c backoff e) db.jobs;
  workers =
      if text_eq e.worker []
      then db.workers
      else update (works_on e.worker e.id) release_row db.workers;
}

abbrev pub reaped_of : Expired → Reaped
reaped_of e = record { id = e.id; attempts = e.attempts; status = next_status e; worker = e.worker }

unfoldable pub reap_all : Clock → BackoffConfig → List Expired → Db → Db
reap_all c backoff [] db = db
reap_all c backoff (e ∷ es) db = reap_all c backoff es (reap_one c backoff e db)

unfoldable pub reap_expired_leases : Clock → BackoffConfig → (ℕ → Bool) → ℤ → Tx (List Reaped)
unfolding reap_all expired_jobs
reap_expired_leases c backoff locked batch db =
    let found = expired_jobs c.now locked (batch_limit batch) db.jobs in
    (ok (map reaped_of found), reap_all c backoff found db)
