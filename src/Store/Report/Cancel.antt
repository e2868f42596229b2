-- ===== src/Store/Report/Cancel.antt =====
-- What a cancellation and a lease renewal return and do.
use jobqueue.Common.{
  ◌==◌, if◌then◌else◌, Bool-cases, ℤ, Text, ℕ, ◌≡◌, refl, ◌≢◌, true, false, ◌∙◌, inl, inr, Bool,
  ◌&&◌, none, some, arith,
}
use jobqueue.Jobs.{status_eq, Job, canceled, not_found, not_owned, not_cancelable, ok, err}
use jobqueue.Store.{find, update, has_id, is_pending, is_held, Db, Clock}
use jobqueue.Store.Rows.{Descending, find_test, find_id-update_hit, find_id-update_miss}
use jobqueue.Store.Report.{renew_row, renew_lease, cancel_row, cancel}
use jobqueue.Store.Report.Outcome.{
  renew_held, renew_lost, explain_found, explain_missing, explain_cancel_found,
  explain_cancel_missing, cancel_pending, cancel_other,
}
use jobqueue.Store.Report.Fencing.{find_guarded_none, find_guarded, is_holder}

abbrev pub pending_id : ℕ → Job → Bool
pending_id i k = k.id == i && is_pending k.status

-- The answer for a stored job, as one equation.
pub cancel_answer :
    (c : Clock) (i : ℕ) (db : Db) (j : Job)
    → Descending db.next_id db.jobs
    → find (has_id i) db.jobs ≡ some j
    → cancel c i db ≡ (
        if is_pending j.status
        then (
          ok (cancel_row c j),
          record db { jobs = update (pending_id i) (cancel_row c) db.jobs },
        )
        else if status_eq j.status canceled
        then (ok j, db)
        else (err not_cancelable, db))
cancel_answer c i db j d s =
    let g = find_guarded db.next_id i (λ k. is_pending k.status) db.jobs j d s in
    elim (Bool-cases (is_pending j.status)) [
      | inl y ↦ rw y (cancel_pending c i db j (rw y at g))
      | inr n ↦
          rw n (cancel_other c i db (rw n at g) ∙ explain_cancel_found i db j s ∙ ground arith)
    ]

-- A cancellation: of an unknown job it is not_found; a PENDING job is stored CANCELED, with the update time and
-- without a lease, and all else of it, its attempts, owner and results, as before, and of every
-- other job; a CANCELED job is answered with the stored row; any other, and so a RUNNING one, is
-- not_cancelable. Except in the second case the database is unchanged.
pub cancel_outcome :
    (c : Clock) (i : ℕ) (db : Db)
    → Descending db.next_id db.jobs
    → let r = cancel c i db in
      (find (has_id i) db.jobs ≡ none → r ≡ (err not_found, db))
      × ((j : Job)
          → find (has_id i) db.jobs ≡ some j
          → (is_pending j.status ≡ true
              → let k = record j { status = canceled; updated_at = c.now; lease_until = none } in
                (r.0 ≡ ok k)
                × (find (has_id i) r.1.jobs ≡ some k)
                × ((n : ℕ) → n ≢ i → find (has_id n) r.1.jobs ≡ find (has_id n) db.jobs)
                × (r.1.workers ≡ db.workers)
                × (r.1.next_id ≡ db.next_id))
            × (is_pending j.status ≡ false
                → r
                  ≡ (if status_eq j.status canceled then (ok j, db) else (err not_cancelable, db))))
unfolding cancel_row
cancel_outcome c i db d = (
  λ e.
      cancel_other c i db (find_guarded_none i (λ k. is_pending k.status) db.jobs e)
      ∙ explain_cancel_missing i db e,
  λ j s.
      let answer = cancel_answer c i db j d s in
      (
        λ y.
            rw (answer, y)
              (
                refl,
                find_id-update_hit (pending_id i) (cancel_row c) (λ k. refl) i db.jobs j s
                    (ground (arith, find_test (has_id i) db.jobs {a = j} s)),
                λ n ne.
                    find_id-update_miss (pending_id i) (cancel_row c) (λ k. refl) n
                      (λ k h. ground arith) db.jobs,
                refl,
                refl,
              ),
        λ n. answer ∙ rw n refl,
      ),
)

-- A renewal: of an unknown job it is not_found; of a job RUNNING under the caller it moves the lease and
-- the update time, and nothing else; of any other it is not_owned. Except in the second case the
-- database is unchanged.
pub renew_outcome :
    (c : Clock) (i : ℕ) (w : Text) (lease : ℤ) (db : Db)
    → Descending db.next_id db.jobs
    → (find (has_id i) db.jobs ≡ none → renew_lease c i w lease db ≡ (err not_found, db))
      × ((j : Job)
          → find (has_id i) db.jobs ≡ some j
          → renew_lease c i w lease db ≡ (
              if is_holder w j
              then (
                ok (record j { lease_until = some (c.after lease); updated_at = c.now }),
                record db { jobs = update (is_held i w) (renew_row c lease) db.jobs },
              )
              else (err not_owned, db)))
unfolding renew_row
renew_outcome c i w lease db d = (
  (λ e.
      renew_lost c i w lease db (find_guarded_none i (is_holder w) db.jobs e)
      ∙ explain_missing i db e),
  (λ j s.
      let g = find_guarded db.next_id i (is_holder w) db.jobs j d s in
      elim (Bool-cases (is_holder w j)) [
        | inl y ↦ rw y (renew_held c i w lease db j (rw y at g))
        | inr n ↦ rw n (renew_lost c i w lease db (rw n at g) ∙ explain_found i db j s)
      ]),
)
