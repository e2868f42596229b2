-- ===== src/Store/Report/Stored.antt =====
-- What `Complete` and `Fail` answer and store, on every branch.
use jobqueue.Common.{
  leb, if◌then◌else◌, is_some, length, take, pos, Text, text, ℕ, ◌+◌, ◌≡◌, refl, ◌∙◌, ◌≢◌, true,
  false, not, ◌&&◌, ◌||◌, none, some, ◌∷◌, ◌++◌, arith,
}
use jobqueue.Jobs.{
  status_eq, Job, WorkerRow, Result, pending, completed, failed, not_found, not_owned, database, ok,
  err,
}
use jobqueue.Jobs.Backoff.{delay, BackoffConfig}
use jobqueue.Store.{find, update, has_id, is_worker, is_pending, owner_is, is_held, Db, Clock}
use jobqueue.Store.Rows.{find_test, Descending, find_id-update_hit, find_id-update_miss}
use jobqueue.Store.Report.{
  truncate_output, complete_row, fail_row, idle_row, complete, fail, fits_integer, Report,
}
use jobqueue.Store.Report.Outcome.{reported, complete_refused, fail_write_refused}
use jobqueue.Store.Report.Fencing.{
  is_holder, fail_missing, fail_found, complete_answer, complete_missing, fail_answer,
}

-- A text of up to 32 KiB as it is, and a longer one cut there and marked.
abbrev pub shortened : Text → Text
shortened s = if leb (length s) 32768 then s else take 32768 s ++ (10 ∷ text "...[truncated]")

-- The row of a worker that has finished an attempt and is idle.
abbrev counted : Clock → WorkerRow → WorkerRow
counted c r = record r {
  jobs_processed = r.jobs_processed + 1;
  current_job_id = none;
  last_heartbeat = c.now;
}

module _ (c : Clock) (i : ℕ) (w : Text) (res : Report) where
  -- The answer is the row k; it stands in the table, no other job has changed, and the worker's row counts
  -- one more attempt.
  abbrev pub Stores : Db → Job → Result Job × Db → Type 0
  Stores db k r =
      (r.0 ≡ ok k)
      × (find (has_id i) r.1.jobs ≡ some k)
      × ((n : ℕ) → n ≢ i → find (has_id n) r.1.jobs ≡ find (has_id n) db.jobs)
      × (r.1.workers ≡ update (is_worker w) (counted c) db.workers)
      × (r.1.next_id ≡ db.next_id)

  reported-Stores :
      (row : Job → Job) (db : Db) (j : Job)
      → ((j : Job) → (row j).id ≡ j.id)
      → find (has_id i) db.jobs ≡ some j
      → is_holder w j ≡ true
      → Stores db (row j) (ok (row j), reported c i w row db)
  unfolding reported idle_row
  reported-Stores row db j same s h = (
    refl,
    find_id-update_hit (is_held i w) row same i db.jobs j s
        (ground (arith, find_test (has_id i) db.jobs {a = j} s)),
    λ n ne. find_id-update_miss (is_held i w) row same n (λ k y. ground arith) db.jobs,
    refl,
    refl,
  )

  -- A completion whose exit code is no INTEGER is an error of the database. Of an unknown job it is not_found.
  -- Of a job RUNNING under the caller it stores COMPLETED, the output, cut to 32 KiB, the exit code and
  -- the duration, without a lease or an error, and one more attempt of the worker, which is idle;
  -- no other job changes. Of a job that the caller had completed it answers with the stored row; of any
  -- other it is not_owned. But for the third case the database is unchanged.
  pub complete_outcome :
      (db : Db)
      → Descending db.next_id db.jobs
      → let r = complete c i w res db in
        (fits_integer res.exit_code ≡ false → r ≡ (err database, db))
        × (fits_integer res.exit_code ≡ true
            → find (has_id i) db.jobs ≡ none
            → r ≡ (err not_found, db))
        × (fits_integer res.exit_code ≡ true
            → (j : Job) → find (has_id i) db.jobs ≡ some j
            → (is_holder w j ≡ true
                → let k = record j {
                  status = completed;
                  worker_id = some w;
                  lease_until = none;
                  updated_at = c.now;
                  result_stdout = some (shortened res.stdout);
                  result_stderr = some (shortened res.stderr);
                  result_exit_code = res.exit_code;
                  duration_ms = res.duration_ms;
                  last_error = none;
                } in
                  Stores db k r)
              × (is_holder w j ≡ false
                  → r ≡ (
                      if status_eq j.status completed && owner_is w j.worker_id
                      then (ok j, db)
                      else (err not_owned, db))))
  unfolding complete_row truncate_output
  complete_outcome db d = (
    complete_refused c i w res db,
    λ fits e. complete_missing c i w res fits db e,
    λ fits j s.
        let answer = complete_answer c i w res fits db j d s in
        (
          λ h. rw (answer, h) (reported-Stores (complete_row c w res) db j (λ j. refl) s h),
          λ h. answer ∙ rw h refl,
        ),
  )

  -- A failure report of an unknown job is not_found, and otherwise one whose exit code is no INTEGER is an
  -- error of the database. Of a job RUNNING under the caller it stores the error and the output, cut to
  -- 32 KiB, the exit code and the duration, and one more attempt of the worker, which is idle: the
  -- job is PENDING without an owner, available after the delay of its attempts, or FAILED under
  -- the caller if its attempts are used up; no other job changes. Of a job that FAILED under the caller,
  -- and of any PENDING job with no owner, it answers with the stored row; of any other it is
  -- not_owned. But for the third case the database is unchanged.
  pub fail_outcome :
      (backoff : BackoffConfig) (db : Db)
      → Descending db.next_id db.jobs
      → let r = fail c backoff i w res db in
        (find (has_id i) db.jobs ≡ none → r ≡ (err not_found, db))
        × ((j : Job)
            → find (has_id i) db.jobs ≡ some j
            → fits_integer res.exit_code ≡ false
            → r ≡ (err database, db))
        × ((j : Job)
            → find (has_id i) db.jobs ≡ some j
            → fits_integer res.exit_code ≡ true
            → (is_holder w j ≡ true
                → let over = leb j.max_attempts j.attempts in
                  let k = record j {
                    status = if over then failed else pending;
                    worker_id = if over then some w else none;
                    lease_until = none;
                    available_at = c.after (delay backoff (pos j.attempts));
                    updated_at = c.now;
                    last_error = some (shortened res.error);
                    result_stdout = some (shortened res.stdout);
                    result_stderr = some (shortened res.stderr);
                    result_exit_code = res.exit_code;
                    duration_ms = res.duration_ms;
                  } in
                  Stores db k r)
              × (is_holder w j ≡ false
                  → r ≡ (
                      if (status_eq j.status failed && owner_is w j.worker_id)
                        || (is_pending j.status && not (is_some j.worker_id))
                      then (ok j, db)
                      else (err not_owned, db))))
  unfolding fail_row truncate_output
  fail_outcome backoff db d = (
    fail_missing c i w res backoff db,
    λ j s f.
        fail_found c i w res backoff db j s ∙ fail_write_refused c i w res db backoff j.attempts f,
    λ j s fits.
        let answer = fail_answer c i w res fits backoff db j d s in
        (
          λ h.
              rw (answer, h)
                (reported-Stores (fail_row c (delay backoff (pos j.attempts)) w res) db j
                  (λ j. refl) s h),
          λ h. answer ∙ rw h refl,
        ),
  )
