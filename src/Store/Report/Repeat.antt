-- ===== src/Store/Report/Repeat.antt =====
-- Repeated requests, late ones, and those of workers that hold nothing.
use jobqueue.Common.{
  if◌then◌else◌, is_some, Bool-cases, Option-cases, ℤ, Text, text_eq_refl, ℕ, ◌≡◌, refl, sym, subst,
  ◌∙◌, inl, inr, true, false, ◌&&◌, none, some, arith,
}
use jobqueue.Jobs.{
  status_eq, Job, Result, pending, running, completed, not_owned, database, StoreError, ok, err,
}
use jobqueue.Store.{find, has_id, owner_is, is_held, Db, Clock}
use jobqueue.Store.Rows.{find_test, Descending, update-Descending, find_id-update_hit}
use jobqueue.Store.Report.{renew_lease, complete_row, complete, fail, fits_integer, Report}
use jobqueue.Store.Report.Outcome.{
  complete_refused, fail_write_refused, reported, renew_lost, explain_found,
}
use jobqueue.Store.Report.Fencing.{
  find_guarded, is_holder, complete_answer, complete_missing, fail_answer, fail_found,
}
use jobqueue.Jobs.Backoff.{BackoffConfig}

reported-Descending :
    (c : Clock) (i : ℕ) (w : Text) (res : Report) (db : Db)
    → Descending db.next_id db.jobs
    → Descending
        (reported c i w (complete_row c w res) db).next_id
        (reported c i w (complete_row c w res) db).jobs
unfolding reported complete_row
reported-Descending c i w res db d =
    update-Descending (is_held i w) (complete_row c w res) (λ j. refl) db.next_id db.jobs d

reported_row :
    (c : Clock) (i : ℕ) (w : Text) (res : Report) (db : Db) (j : Job)
    → find (has_id i) db.jobs ≡ some j
    → is_holder w j ≡ true
    → find (has_id i) (reported c i w (complete_row c w res) db).jobs
      ≡ some (complete_row c w res j)
unfolding reported
reported_row c i w res db j s h =
    find_id-update_hit (is_held i w) (complete_row c w res) (unfold complete_row in λ j. refl) i
      db.jobs j s (ground (arith, find_test (has_id i) db.jobs {a = j} s))

-- Once a job is COMPLETED under a worker, its completion by that worker is a replay.
complete_again :
    (c : Clock) (i : ℕ) (w : Text) (res : Report) (db : Db) (j : Job)
    → Descending db.next_id db.jobs
    → find (has_id i) db.jobs ≡ some j
    → (status_eq j.status completed && owner_is w j.worker_id) ≡ true
    → fits_integer res.exit_code ≡ true
    → complete c i w res db ≡ (ok j, db)
complete_again c i w res db j d s h fits = complete_answer c i w res fits db j d s ∙ ground arith

completed_again :
    (c : Clock) (w : Text) (res : Report) (j : Job)
    → (status_eq (complete_row c w res j).status completed
        && owner_is w (complete_row c w res j).worker_id)
      ≡ true
unfolding complete_row
completed_again c w res j = text_eq_refl w

-- A completion that succeeded had an INTEGER for its exit code.
pub complete_fits :
    (c : Clock) (i : ℕ) (w : Text) (res : Report) (db db' : Db) (k : Job)
    → complete c i w res db ≡ (ok k, db')
    → fits_integer res.exit_code ≡ true
complete_fits c i w res db db' k h = elim (Bool-cases (fits_integer res.exit_code)) [
  | inl y ↦ y
  | inr n ↦ absurd (cc (complete_refused c i w res db n, h))
]

-- A completion that succeeded can be repeated: whatever the repeat reports, if its exit code is an
-- INTEGER, and whenever it comes, it returns the same row and changes nothing.
pub complete_twice :
    (c later : Clock) (i : ℕ) (w : Text) (res again : Report) (db db' : Db) (k : Job)
    → Descending db.next_id db.jobs
    → fits_integer again.exit_code ≡ true
    → complete c i w res db ≡ (ok k, db')
    → complete later i w again db' ≡ (ok k, db')
complete_twice c later i w res again db db' k d fits h =
    let P : Result Job × Db → Type 0 = λ r. complete later i w again r.1 ≡ r in
    let ok_code = complete_fits c i w res db db' k h in
    elim (Option-cases (find (has_id i) db.jobs)) [
      | inl e ↦ absurd (cc (complete_missing c i w res ok_code db e, h))
      | inr (j, s) ↦ elim (Bool-cases (is_holder w j)) [
        | inl y ↦
            let e : complete c i w res db
                ≡ (ok (complete_row c w res j), reported c i w (complete_row c w res) db) =
              complete_answer c i w res ok_code db j d s ∙ (rw y) in
            subst P (sym e ∙ h) (
              complete_again later i w again (reported c i w (complete_row c w res) db)
                (complete_row c w res j) (reported-Descending c i w res db d)
                (reported_row c i w res db j s y) (completed_again c w res j) fits)
        | inr n ↦ elim (Bool-cases (status_eq j.status completed && owner_is w j.worker_id)) [
          | inl y ↦
              let e : complete c i w res db ≡ (ok j, db) =
                complete_answer c i w res ok_code db j d s ∙ (rw (n, y)) in
              subst P (sym e ∙ h) (complete_again later i w again db j d s y fits)
          | inr m ↦
              let e : complete c i w res db ≡ (err not_owned, db) =
                complete_answer c i w res ok_code db j d s ∙ (rw (n, m)) in
              absurd (cc (e, h))
        ]
      ]
    ]

-- The error of a report that meets no row of its own.
abbrev pub refusal : Report → StoreError
refusal res = if fits_integer res.exit_code then not_owned else database

-- The fence: while a job is RUNNING under another worker, neither a completion nor a failure report nor
-- a lease renewal by the caller has any effect, and each is answered not_owned, but for a report whose
-- exit code is no INTEGER, which is an error of the database.
pub stale_reports :
    (c : Clock) (backoff : BackoffConfig) (i : ℕ) (w : Text) (res : Report) (lease : ℤ) (db : Db)
    (j : Job)
    → Descending db.next_id db.jobs
    → find (has_id i) db.jobs ≡ some j
    → j.status ≡ running
    → owner_is w j.worker_id ≡ false
    → is_some j.worker_id ≡ true
    → (complete c i w res db ≡ (err (refusal res), db))
      × (fail c backoff i w res db ≡ (err (refusal res), db))
      × (renew_lease c i w lease db ≡ (err not_owned, db))
stale_reports c backoff i w res lease db j d s r o held = (
  elim (Bool-cases (fits_integer res.exit_code)) [
    | inl y ↦ rw (complete_answer c i w res y db j d s, y) (ground arith)
    | inr n ↦ rw (complete_refused c i w res db n, n) refl
  ],
  elim (Bool-cases (fits_integer res.exit_code)) [
    | inl y ↦ rw (fail_answer c i w res y backoff db j d s, y) (ground arith)
    | inr n ↦
        rw
          (
            fail_found c i w res backoff db j s,
            fail_write_refused c i w res db backoff j.attempts n,
            n,
          )
          refl
  ],
  renew_lost c i w lease db (find_guarded db.next_id i (is_holder w) db.jobs j d s ∙ ground arith)
      ∙ explain_found i db j s,
)

-- A failure report of a job that is PENDING with no owner is answered with success whoever sends it, also
-- a worker that never claimed the job, if its exit code is an INTEGER; nothing is recorded.
pub stranger_fails :
    (c : Clock) (backoff : BackoffConfig) (i : ℕ) (w : Text) (res : Report) (db : Db) (j : Job)
    → Descending db.next_id db.jobs
    → find (has_id i) db.jobs ≡ some j
    → j.status ≡ pending
    → j.worker_id ≡ none
    → fits_integer res.exit_code ≡ true
    → fail c backoff i w res db ≡ (ok j, db)
stranger_fails c backoff i w res db j d s p n fits =
    fail_answer c i w res fits backoff db j d s ∙ ground arith
