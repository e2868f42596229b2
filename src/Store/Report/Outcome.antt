-- ===== src/Store/Report/Outcome.antt =====
-- What the reports of a worker return and do, in terms of the job's row.
use jobqueue.Common.{
  ◌==◌, Bool-cases, Option-cases, ℤ, pos, Text, ℕ, ◌≡◌, refl, inl, inr, true, false, ◌&&◌, Option,
  none, some, arith,
}
use jobqueue.Jobs.{
  Status, Job, Result, database, completed, failed, not_found, not_owned, no_jobs, ok, err,
}
use jobqueue.Jobs.Backoff.{delay, BackoffConfig}
use jobqueue.Store.{find, update, has_id, is_worker, is_pending, is_held, Db, Clock}
use jobqueue.Store.Report.{
  explain_lost_row, renew_row, renew_lease, complete_row, fail_row, idle_row, report_tx,
  replay_result, replay_or_conflict, complete, fail_write, cancel_row, cancel_result, fits_integer,
  explain_not_canceled, cancel, Report,
}

module _ (c : Clock) (i : ℕ) (w : Text) where
  -- The database after a report on a held job.
  unfoldable pub reported : (Job → Job) → Db → Db
  reported row db = record db {
    jobs = update (is_held i w) row db.jobs;
    workers = update (is_worker w) (idle_row c) db.workers;
  }

  report_tx_held :
      (code : Option ℤ) (row : Job → Job) (db : Db) (j : Job)
      → fits_integer code ≡ true
      → find (is_held i w) db.jobs ≡ some j
      → report_tx c i w code row db ≡ (ok (row j), reported row db)
  unfolding report_tx reported
  report_tx_held code row db j f e = ground arith

  report_tx_lost :
      (code : Option ℤ) (row : Job → Job) (db : Db)
      → fits_integer code ≡ true
      → find (is_held i w) db.jobs ≡ none
      → report_tx c i w code row db ≡ (err no_jobs, db)
  unfolding report_tx
  report_tx_lost code row db f e = ground arith

  report_tx_refused :
      (code : Option ℤ) (row : Job → Job) (db : Db)
      → fits_integer code ≡ false
      → report_tx c i w code row db ≡ (err database, db)
  unfolding report_tx
  report_tx_refused code row db f = rw f refl

  module _ (res : Report) (db : Db) where
    pub complete_held :
        (j : Job)
        → fits_integer res.exit_code ≡ true
        → find (is_held i w) db.jobs ≡ some j
        → complete c i w res db ≡ (ok (complete_row c w res j), reported (complete_row c w res) db)
    unfolding complete
    complete_held j f e = rw (report_tx_held res.exit_code (complete_row c w res) db j f e)

    pub complete_lost :
        fits_integer res.exit_code ≡ true
        → find (is_held i w) db.jobs ≡ none
        → complete c i w res db ≡ replay_or_conflict i w completed db
    unfolding complete
    complete_lost f e = rw (report_tx_lost res.exit_code (complete_row c w res) db f e)

    pub complete_refused :
        fits_integer res.exit_code ≡ false → complete c i w res db ≡ (err database, db)
    unfolding complete
    complete_refused f = rw (report_tx_refused res.exit_code (complete_row c w res) db f)

    -- What holds of a refusal, of the answer to a repeat and of the stored result holds of a completion.
    pub complete_cases {κ} :
        (P : Result Job × Db → Type κ)
        → (fits_integer res.exit_code ≡ false → P (err database, db))
        → (find (is_held i w) db.jobs ≡ none → P (replay_or_conflict i w completed db))
        → ((j : Job)
            → find (is_held i w) db.jobs ≡ some j
            → P (ok (complete_row c w res j), reported (complete_row c w res) db))
        → P (complete c i w res db)
    complete_cases P refused lost held = elim (Bool-cases (fits_integer res.exit_code)) [
      | inl f ↦ elim (Option-cases (find (is_held i w) db.jobs)) [
        | inl e ↦ rw (complete_lost f e) (lost e)
        | inr (j, e) ↦ rw (complete_held j f e) (held j e)
      ]
      | inr f ↦ rw (complete_refused f) (refused f)
    ]

    module _ (backoff : BackoffConfig) (attempts : ℕ) where
      abbrev failing_row : Job → Job
      failing_row = fail_row c (delay backoff (pos attempts)) w res

      pub fail_write_held :
          (j : Job)
          → fits_integer res.exit_code ≡ true
          → find (is_held i w) db.jobs ≡ some j
          → fail_write c backoff attempts i w res db ≡ (ok (failing_row j), reported failing_row db)
      unfolding fail_write
      fail_write_held j f e = rw (report_tx_held res.exit_code failing_row db j f e)

      pub fail_write_lost :
          fits_integer res.exit_code ≡ true
          → find (is_held i w) db.jobs ≡ none
          → fail_write c backoff attempts i w res db ≡ replay_or_conflict i w failed db
      unfolding fail_write
      fail_write_lost f e = rw (report_tx_lost res.exit_code failing_row db f e)

      pub fail_write_refused :
          fits_integer res.exit_code ≡ false
          → fail_write c backoff attempts i w res db ≡ (err database, db)
      unfolding fail_write
      fail_write_refused f = rw (report_tx_refused res.exit_code failing_row db f)

      -- The same for a failure report.
      pub fail_write_cases {κ} :
          (P : Result Job × Db → Type κ)
          → (fits_integer res.exit_code ≡ false → P (err database, db))
          → (find (is_held i w) db.jobs ≡ none → P (replay_or_conflict i w failed db))
          → ((j : Job)
              → find (is_held i w) db.jobs ≡ some j
              → P (ok (failing_row j), reported failing_row db))
          → P (fail_write c backoff attempts i w res db)
      fail_write_cases P refused lost held = elim (Bool-cases (fits_integer res.exit_code)) [
        | inl f ↦ elim (Option-cases (find (is_held i w) db.jobs)) [
          | inl e ↦ rw (fail_write_lost f e) (lost e)
          | inr (j, e) ↦ rw (fail_write_held j f e) (held j e)
        ]
        | inr f ↦ rw (fail_write_refused f) (refused f)
      ]

  pub renew_held :
      (lease : ℤ) (db : Db) (j : Job)
      → find (is_held i w) db.jobs ≡ some j
      → renew_lease c i w lease db ≡ (
        ok (renew_row c lease j),
        record db { jobs = update (is_held i w) (renew_row c lease) db.jobs },
      )
  unfolding renew_lease
  renew_held lease db j e = ground arith

  pub renew_lost :
      (lease : ℤ) (db : Db)
      → find (is_held i w) db.jobs ≡ none
      → renew_lease c i w lease db ≡ explain_lost_row i db
  unfolding renew_lease
  renew_lost lease db e = ground arith

pub replay_keeps :
    (i : ℕ) (w : Text) (want : Status) (db : Db) → (replay_or_conflict i w want db).1 ≡ db
unfolding replay_or_conflict
replay_keeps i w want db = ground arith

pub replay_missing :
    (i : ℕ) (w : Text) (want : Status) (db : Db)
    → find (has_id i) db.jobs ≡ none
    → replay_or_conflict i w want db ≡ (err not_found, db)
unfolding replay_or_conflict
replay_missing i w want db e = ground arith

pub replay_found :
    (i : ℕ) (w : Text) (want : Status) (db : Db) (j : Job)
    → find (has_id i) db.jobs ≡ some j
    → replay_or_conflict i w want db ≡ (replay_result w want j, db)
unfolding replay_or_conflict
replay_found i w want db j e = ground arith

pub explain_keeps : (i : ℕ) (db : Db) → (explain_lost_row i db).1 ≡ db
unfolding explain_lost_row
explain_keeps i db = ground arith

pub explain_found :
    (i : ℕ) (db : Db) (j : Job)
    → find (has_id i) db.jobs ≡ some j
    → explain_lost_row i db ≡ (err not_owned, db)
unfolding explain_lost_row
explain_found i db j e = ground arith

pub explain_missing :
    (i : ℕ) (db : Db) → find (has_id i) db.jobs ≡ none → explain_lost_row i db ≡ (err not_found, db)
unfolding explain_lost_row
explain_missing i db e = ground arith

pub explain_cancel_found :
    (i : ℕ) (db : Db) (j : Job)
    → find (has_id i) db.jobs ≡ some j
    → explain_not_canceled i db ≡ (cancel_result j, db)
unfolding explain_not_canceled
explain_cancel_found i db j e = ground arith

pub explain_cancel_missing :
    (i : ℕ) (db : Db)
    → find (has_id i) db.jobs ≡ none
    → explain_not_canceled i db ≡ (err not_found, db)
unfolding explain_not_canceled
explain_cancel_missing i db e = ground arith

pub cancel_pending :
    (c : Clock) (i : ℕ) (db : Db) (j : Job)
    → find (λ k. k.id == i && is_pending k.status) db.jobs ≡ some j
    → cancel c i db ≡ (
      ok (cancel_row c j),
      record db { jobs = update (λ k. k.id == i && is_pending k.status) (cancel_row c) db.jobs },
    )
unfolding cancel
cancel_pending c i db j e = ground arith

pub cancel_other :
    (c : Clock) (i : ℕ) (db : Db)
    → find (λ k. k.id == i && is_pending k.status) db.jobs ≡ none
    → cancel c i db ≡ explain_not_canceled i db
unfolding cancel
cancel_other c i db e = ground arith

pub explain_cancel_keeps : (i : ℕ) (db : Db) → (explain_not_canceled i db).1 ≡ db
unfolding explain_not_canceled
explain_cancel_keeps i db = ground arith
