-- ===== src/Store/Errors.antt =====
-- The errors of internal/jobs/store.go: the sentinels, and the database's own.
use jobqueue.Common.{
  ◌==◌, Bool-cases, Option-cases, length, select, ℤ, Text, ℕ, ◌≡◌, ◌≢◌, inl, inr, Bool, true, ◌&&◌,
}
use jobqueue.Jobs.{
  status_eq, Status, Job, StoreError, Result, completed, failed, canceled, no_jobs, database, ok,
  err,
}
use jobqueue.Jobs.Backoff.{BackoffConfig}
use jobqueue.Store.{
  find, Tx, bind, commit, with_tx, update_job, update_workers, has_id, is_worker, is_pending,
  is_held, Db, Clock,
}
use jobqueue.Store.Reads.{get}
use jobqueue.Store.Claim.{
  next_claimable, claim_row, claim_statement, require_worker, claim_tx, claim,
}
use jobqueue.Store.Report.{
  renew_lease, replays, replay_or_conflict, complete, fail_write, fail, cancel_result, cancel,
  Report, fits_integer,
}
use jobqueue.Store.Report.Outcome.{
  complete_cases, fail_write_cases, renew_held, renew_lost, replay_missing, replay_found,
  explain_found, explain_missing, explain_cancel_found, explain_cancel_missing, cancel_pending,
  cancel_other,
}
use jobqueue.Store.Report.Fencing.{fail_missing, fail_found}
use jobqueue.Store.Fleet.{register_worker, heartbeat}

-- No error, or one of the sentinels.
abbrev pub IsExpected {ℓ} : {A : Type ℓ} → Result A → Type 0
IsExpected (ok a) = Unit {0}
IsExpected (err e) = e ≢ database

commit-IsExpected :
    {A : Type 0} (db : Db) (r : Result A × Db) → IsExpected r.0 → IsExpected (commit db r).0
commit-IsExpected db (ok a, db') h = tt
commit-IsExpected db (err e, db') h = h

bind-IsExpected :
    {A B : Type 0} (r : Result A × Db) (f : A → Tx B)
    → IsExpected r.0
    → ((a : A) (db : Db) → IsExpected (f a db).0)
    → IsExpected (bind r f).0
bind-IsExpected (ok a, db) f h k = k a db
bind-IsExpected (err e, db) f h k = h

update_job-IsExpected :
    (p : Job → Bool) (f : Job → Job) (e : StoreError) (db : Db)
    → e ≢ database
    → IsExpected (update_job p f e db).0
unfolding update_job
update_job-IsExpected p f e db h = elim (Option-cases (find p db.jobs)) [
  | inl n ↦ rw (n, update_job) h
  | inr (j, n) ↦ rw (n, update_job) tt
]

module _ (c : Clock) (locked : ℕ → Bool) (w : Text) (lease : ℤ) where
  claim_statement-IsExpected : (db : Db) → IsExpected (claim_statement c locked w lease db).0
  unfolding claim_statement
  claim_statement-IsExpected db = elim (Option-cases (next_claimable c.now locked db.jobs)) [
    | inl n ↦ rw (n, claim_statement) (λ h. absurd (cc h))
    | inr (j, n) ↦
        rw (n, claim_statement)
          (update_job-IsExpected (has_id j.id) (claim_row c w lease) no_jobs db
            (λ h. absurd (cc h)))
  ]

  claim_found-IsExpected : (n : ℕ) (j : Job) (db : Db) → IsExpected (require_worker n j db).0
  claim_found-IsExpected n j db = elim (Bool-cases (n == 0)) [
    | inl e ↦ rw e (λ h. absurd (cc h))
    | inr e ↦ rw e tt
  ]

  pub claim-IsExpected : (db : Db) → IsExpected (claim c locked w lease db).0
  unfolding claim with_tx claim_tx update_workers
  claim-IsExpected db = commit-IsExpected db _ (
      bind-IsExpected (claim_statement c locked w lease db) _ (claim_statement-IsExpected db)
        (λ j db'. claim_found-IsExpected (length (select (is_worker w) db'.workers)) j _))

replay-IsExpected :
    (i : ℕ) (w : Text) (want : Status) (db : Db) → IsExpected (replay_or_conflict i w want db).0
replay-IsExpected i w want db = elim (Option-cases (find (has_id i) db.jobs)) [
  | inl e ↦ rw (replay_missing i w want db e) (λ h. absurd (cc h))
  | inr (j, e) ↦
      rw (replay_found i w want db j e) (elim (Bool-cases (replays w want j)) [
        | inl y ↦ rw y tt
        | inr n ↦ rw n (λ h. absurd (cc h))
      ])
]

pub complete-IsExpected :
    (c : Clock) (i : ℕ) (w : Text) (res : Report) (db : Db)
    → fits_integer res.exit_code ≡ true
    → IsExpected (complete c i w res db).0
complete-IsExpected c i w res db fits =
    complete_cases c i w res db (λ r. IsExpected r.0) (λ f. absurd (cc (fits, f)))
      (λ e. replay-IsExpected i w completed db) (λ j e. tt)

fail_write-IsExpected :
    (c : Clock) (backoff : BackoffConfig) (n i : ℕ) (w : Text) (res : Report) (db : Db)
    → fits_integer res.exit_code ≡ true
    → IsExpected (fail_write c backoff n i w res db).0
fail_write-IsExpected c backoff n i w res db fits =
    fail_write_cases c i w res db backoff n (λ r. IsExpected r.0) (λ f. absurd (cc (fits, f)))
      (λ e. replay-IsExpected i w failed db) (λ j e. tt)

pub fail-IsExpected :
    (c : Clock) (backoff : BackoffConfig) (i : ℕ) (w : Text) (res : Report) (db : Db)
    → fits_integer res.exit_code ≡ true
    → IsExpected (fail c backoff i w res db).0
fail-IsExpected c backoff i w res db fits = elim (Option-cases (find (has_id i) db.jobs)) [
  | inl e ↦ rw (fail_missing c i w res backoff db e) (λ h. absurd (cc h))
  | inr (j, e) ↦
      rw (fail_found c i w res backoff db j e)
        (fail_write-IsExpected c backoff j.attempts i w res db fits)
]

pub renew_lease-IsExpected :
    (c : Clock) (i : ℕ) (w : Text) (lease : ℤ) (db : Db) → IsExpected (renew_lease c i w lease db).0
renew_lease-IsExpected c i w lease db = elim (Option-cases (find (is_held i w) db.jobs)) [
  | inl e ↦ rw (renew_lost c i w lease db e) (elim (Option-cases (find (has_id i) db.jobs)) [
    | inl n ↦ rw (explain_missing i db n) (λ h. absurd (cc h))
    | inr (j, n) ↦ rw (explain_found i db j n) (λ h. absurd (cc h))
  ])
  | inr (j, e) ↦ rw (renew_held c i w lease db j e) tt
]

cancel_result-IsExpected : (j : Job) → IsExpected (cancel_result j)
cancel_result-IsExpected j = elim (Bool-cases (status_eq j.status canceled)) [
  | inl y ↦ rw y tt
  | inr n ↦ rw n (λ h. absurd (cc h))
]

pub cancel-IsExpected : (c : Clock) (i : ℕ) (db : Db) → IsExpected (cancel c i db).0
cancel-IsExpected c i db =
    elim (Option-cases (find (λ k. k.id == i && is_pending k.status) db.jobs)) [
      | inl e ↦ rw (cancel_other c i db e) (elim (Option-cases (find (has_id i) db.jobs)) [
        | inl n ↦ rw (explain_cancel_missing i db n) (λ h. absurd (cc h))
        | inr (j, n) ↦ rw (explain_cancel_found i db j n) (cancel_result-IsExpected j)
      ])
      | inr (j, e) ↦ rw (cancel_pending c i db j e) tt
    ]

pub get-IsExpected : (i : ℕ) (db : Db) → IsExpected (get i db).0
unfolding get
get-IsExpected i db = elim (Option-cases (find (has_id i) db.jobs)) [
  | inl n ↦ rw (n, get) (λ h. absurd (cc h))
  | inr (j, n) ↦ rw (n, get) tt
]

pub register_worker-IsExpected :
    (c : Clock) (w hostname : Text) (db : Db) → IsExpected (register_worker c w hostname db).0
unfolding register_worker
register_worker-IsExpected c w hostname db = elim (Option-cases (find (is_worker w) db.workers)) [
  | inl n ↦ rw (n, register_worker) tt
  | inr (r, n) ↦ rw (n, register_worker) tt
]

pub heartbeat-IsExpected : (c : Clock) (w : Text) (db : Db) → IsExpected (heartbeat c w db).0
unfolding heartbeat
heartbeat-IsExpected c w db = elim (Option-cases (find (is_worker w) db.workers)) [
  | inl n ↦ rw (n, heartbeat) (λ h. absurd (cc h))
  | inr (r, n) ↦ rw (n, heartbeat) tt
]
