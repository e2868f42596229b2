-- ===== src/Store/Invariant/Staff.antt =====
-- The two tables together: the workers of the running jobs.
use jobqueue.Common.{
  ◌==◌, is_some, Bool-cases, Option-cases, All, ℤ, pos, Text, text_eq, ℕ, ◌≡◌, refl, ◌∙◌, inl, inr,
  Bool, true, false, ◌&&◌, Option, none, some, List, [], ◌∷◌, arith,
}
use jobqueue.Jobs.{Job, WorkerRow, completed, failed}
use jobqueue.Jobs.Backoff.{delay, BackoffConfig}
use jobqueue.Store.{find, update, has_id, is_worker, is_pending, is_running, is_held, Db, Clock}
use jobqueue.Store.Rows.{update-All, All-mono}
use jobqueue.Store.Reads.{new_job, create}
use jobqueue.Store.Claim.{next_claimable, claim_row, stamp_row, claim}
use jobqueue.Store.Report.{
  renew_row, renew_lease, complete_row, fail_row, idle_row, complete, fail_write, cancel_row,
  cancel, Report,
}
use jobqueue.Store.Report.Outcome.{
  reported, complete_cases, fail_write_cases, renew_held, renew_lost, replay_keeps, explain_keeps,
  cancel_pending, cancel_other, explain_cancel_keeps,
}
use jobqueue.Store.Invariant.{IsWellFormed}
use jobqueue.Store.Claim.Outcome.{claimed, claim-none, claim_unknown, claim_known}
use jobqueue.Store.Claim.Choice.{next_claimable-IsHead}

abbrev pub is_registered : Option Text → List WorkerRow → Bool
is_registered none ws = false
is_registered (some w) ws = is_some (find (is_worker w) ws)

-- A job that runs has a worker with a row.
abbrev pub IsStaffed : List WorkerRow → Job → Type 0
IsStaffed ws j = is_running j.status ≡ true → is_registered j.worker_id ws ≡ true

abbrev pub Grows : List WorkerRow → List WorkerRow → Type 0
Grows ws ws' = (o : Option Text) → is_registered o ws ≡ true → is_registered o ws' ≡ true

pub cons-Grows : (r : WorkerRow) (ws : List WorkerRow) → Grows ws (r ∷ ws)
unfolding find
cons-Grows r ws none h = absurd (cc h)
cons-Grows r ws (some w) h = ground (arith, h)

find-update :
    (p : WorkerRow → Bool) (f : WorkerRow → WorkerRow)
    → ((r : WorkerRow) → (f r).id ≡ r.id)
    → (w : Text) (ws : List WorkerRow)
    → is_some (find (is_worker w) (update p f ws)) ≡ is_some (find (is_worker w) ws)
unfolding find update
find-update p f same w [] = refl
find-update p f same w (r ∷ ws) = elim (Bool-cases (p r)) [
  | inl y ↦
      rw (y, same r)
        (elim (Bool-cases (text_eq r.id w)) [
          | inl e ↦ rw e refl
          | inr e ↦ rw e (find-update p f same w ws)
        ])
  | inr n ↦ rw n (elim (Bool-cases (text_eq r.id w)) [
    | inl e ↦ rw e refl
    | inr e ↦ rw e (find-update p f same w ws)
  ])
]

pub update-Grows :
    (p : WorkerRow → Bool) (f : WorkerRow → WorkerRow)
    → ((r : WorkerRow) → (f r).id ≡ r.id)
    → (ws : List WorkerRow) → Grows ws (update p f ws)
update-Grows p f same ws none h = absurd (cc h)
update-Grows p f same ws (some w) h = find-update p f same w ws ∙ h

-- Rows that an UPDATE leaves staffed, with a table of workers that loses none.
pub update-IsStaffed :
    (ws ws' : List WorkerRow)
    → Grows ws ws'
    → (p : Job → Bool) (f : Job → Job)
    → ((j : Job) → p j ≡ true → IsStaffed ws' j → IsStaffed ws' (f j))
    → (js : List Job) → All (IsStaffed ws) js
    → All (IsStaffed ws') (update p f js)
update-IsStaffed ws ws' grows p f keep js all =
    update-All (IsStaffed ws') p f keep js
      (All-mono (IsStaffed ws) (IsStaffed ws') (λ j h r. grows j.worker_id (h r)) js all)

abbrev pub AreStaffed : Db → Type 0
AreStaffed db = All (IsStaffed db.workers) db.jobs

pub same-Grows : (ws : List WorkerRow) → Grows ws ws
same-Grows ws o h = h

pub create-AreStaffed :
    (c : Clock) (type payload : Text) (n : ℤ) (db : Db)
    → AreStaffed db
    → AreStaffed (create c type payload n db).1
unfolding create new_job
create-AreStaffed c type payload n db v = ground (arith, v)

claimed-AreStaffed :
    (c : Clock) (locked : ℕ → Bool) (w : Text) (lease : ℤ) (db : Db) (j : Job) (r : WorkerRow)
    → find (is_worker w) db.workers ≡ some r
    → AreStaffed db
    → AreStaffed (claimed c locked w lease db j)
unfolding claimed claim_row stamp_row
claimed-AreStaffed c locked w lease db j r n v =
    let ws' = update (is_worker w) (stamp_row c j.id) db.workers in
    let grows = update-Grows (is_worker w) (stamp_row c j.id) (λ r. refl) db.workers in
    let here : is_registered (some w) db.workers ≡ true = rw n refl in
    update-IsStaffed db.workers ws' grows (has_id j.id) (claim_row c w lease)
      (λ k y h _. grows (some w) here) db.jobs v

pub claim-AreStaffed :
    (c : Clock) (locked : ℕ → Bool) (w : Text) (lease : ℤ) (db : Db)
    → AreStaffed db
    → IsWellFormed db
    → AreStaffed (claim c locked w lease db).1
claim-AreStaffed c locked w lease db v wf =
    elim (Option-cases (next_claimable c.now locked db.jobs)) [
      | inl e ↦ rw (claim-none c locked w lease db e) v
      | inr (j, e) ↦
          let head = next_claimable-IsHead c.now locked db.next_id db.jobs j wf.ids e in
          elim (Option-cases (find (is_worker w) db.workers)) [
            | inl n ↦ rw (claim_unknown c locked w lease db j e head.stored n) v
            | inr (r, n) ↦
                rw (claim_known c locked w lease db j r e head.stored n)
                  (claimed-AreStaffed c locked w lease db j r n v)
          ]
    ]

reported-AreStaffed :
    (c : Clock) (i : ℕ) (w : Text) (row : Job → Job)
    → ((j : Job) → is_running (row j).status ≡ false)
    → (db : Db) → AreStaffed db
    → AreStaffed (reported c i w row db)
unfolding reported idle_row
reported-AreStaffed c i w row ends db v =
    update-IsStaffed db.workers (update (is_worker w) (idle_row c) db.workers)
      (update-Grows (is_worker w) (idle_row c) (λ r. refl) db.workers) (is_held i w) row
      (λ j y h r. absurd (cc (r, ends j))) db.jobs v

pub complete-AreStaffed :
    (c : Clock) (i : ℕ) (w : Text) (res : Report) (db : Db)
    → AreStaffed db
    → AreStaffed (complete c i w res db).1
complete-AreStaffed c i w res db v =
    complete_cases c i w res db (λ r. AreStaffed r.1) (λ f. v)
      (λ e. rw (replay_keeps i w completed db) v)
      (λ j e.
        reported-AreStaffed c i w (complete_row c w res) (λ k. unfold complete_row in refl) db v)

fail_row_stops :
    (c : Clock) (wait : ℤ) (w : Text) (res : Report) (j : Job)
    → is_running (fail_row c wait w res j).status ≡ false
unfolding fail_row
fail_row_stops c wait w res j = ground arith

pub fail_write-AreStaffed :
    (c : Clock) (backoff : BackoffConfig) (n i : ℕ) (w : Text) (res : Report) (db : Db)
    → AreStaffed db
    → AreStaffed (fail_write c backoff n i w res db).1
fail_write-AreStaffed c backoff n i w res db v =
    fail_write_cases c i w res db backoff n (λ r. AreStaffed r.1) (λ f. v)
      (λ e. rw (replay_keeps i w failed db) v)
      (λ j e.
        reported-AreStaffed c i w (fail_row c (delay backoff (pos n)) w res)
          (fail_row_stops c (delay backoff (pos n)) w res) db v)

pub renew_lease-AreStaffed :
    (c : Clock) (i : ℕ) (w : Text) (lease : ℤ) (db : Db)
    → AreStaffed db
    → AreStaffed (renew_lease c i w lease db).1
renew_lease-AreStaffed c i w lease db v = elim (Option-cases (find (is_held i w) db.jobs)) [
  | inl e ↦ rw (renew_lost c i w lease db e, explain_keeps i db) v
  | inr (j, e) ↦ rw (renew_held c i w lease db j e) (
      update-All (IsStaffed db.workers) (is_held i w) (renew_row c lease)
        (λ k y h. unfold renew_row in h) db.jobs v)
]

pub cancel-AreStaffed : (c : Clock) (i : ℕ) (db : Db) → AreStaffed db → AreStaffed (cancel c i db).1
cancel-AreStaffed c i db v =
    elim (Option-cases (find (λ k. k.id == i && is_pending k.status) db.jobs)) [
      | inl e ↦ rw (cancel_other c i db e, explain_cancel_keeps i db) v
      | inr (j, e) ↦ rw (cancel_pending c i db j e) (
          update-All (IsStaffed db.workers) (λ k. k.id == i && is_pending k.status) (cancel_row c)
            (λ k y h r. absurd (unfold cancel_row in cc r)) db.jobs v)
    ]
