-- ===== src/Store/Invariant/Steps.antt =====
-- The calls of the store and the well-formedness of the database, one by one.
use jobqueue.Common.{
  ◌==◌, Option-cases, All, pos_part, ℤ, pos, Text, ℕ, suc, ◌≡◌, refl, sym, subst, inl, inr, Bool,
  true, ◌&&◌, List, arith,
}
use jobqueue.Jobs.{Job, WorkerRow, completed, failed}
use jobqueue.Store.{find, update, has_id, is_pending, is_running, is_held, Db, Clock}
use jobqueue.Store.Rows.{
  find-All, update-All, update_when-All, All-both, All-mono, Descending, Descending-mono,
  update-Descending, Descending-unique,
}
use jobqueue.Store.Reads.{create}
use jobqueue.Store.Claim.{claim_row, claim}
use jobqueue.Store.Report.{
  renew_row, renew_lease, complete_row, fail_row, complete, fail_write, cancel_row, cancel, Report,
}
use jobqueue.Store.Report.Outcome.{
  reported, complete_cases, fail_write_cases, renew_held, renew_lost, replay_keeps, explain_keeps,
  cancel_pending, cancel_other, explain_cancel_keeps,
}
use jobqueue.Store.Invariant.{
  new_job-IsSound, claim_row-IsSound, renew_row-IsSound, complete_row-IsSound, fail_row-IsSound,
  cancel_row-IsSound, IsSound, IsWellFormed,
}
use jobqueue.Jobs.Backoff.{delay, BackoffConfig}
use jobqueue.Store.Claim.Choice.{IsHead}
use jobqueue.Store.Claim.Outcome.{claimed, claim_cases}

pub create-IsWellFormed :
    (c : Clock) (type payload : Text) (n : ℤ) (db : Db)
    → IsWellFormed db
    → IsWellFormed (create c type payload n db).1
unfolding create
create-IsWellFormed c type payload n db v = ground (
  arith,
  Descending-mono db.next_id (suc db.next_id) db.jobs,
  new_job-IsSound c db.next_id type payload (pos_part n),
)

-- A guarded UPDATE of the jobs whose SET keeps the ids and the soundness of the rows that match.
module _ (p : Job → Bool) (f : Job → Job) (same : (j : Job) → (f j).id ≡ j.id)
    (keep : (j : Job) → p j ≡ true → IsSound j → IsSound (f j)) where
  update-IsWellFormed :
      (db : Db) (ws : List WorkerRow)
      → IsWellFormed db
      → IsWellFormed (record db { jobs = update p f db.jobs; workers = ws })
  update-IsWellFormed db ws v = record {
    ids = update-Descending p f same db.next_id db.jobs v.ids;
    rows = update-All IsSound p f keep db.jobs v.rows;
  }

held_running : (i : ℕ) (w : Text) (j : Job) → is_held i w j ≡ true → is_running j.status ≡ true
held_running i w j h = ground arith

pub head_pending :
    (now : ℕ) (locked : ℕ → Bool) (js : List Job) (j : Job)
    → IsHead now locked js j
    → is_pending j.status ≡ true
head_pending now locked js j h = ground (arith, h.claimable)

-- The row that a claim updates is the one that it chose.
claimed_pending :
    (n : ℕ) (now : ℕ) (locked : ℕ → Bool) (js : List Job) (j : Job)
    → Descending n js
    → IsHead now locked js j
    → All (λ k. has_id j.id k ≡ true → is_pending k.status ≡ true) js
claimed_pending n now locked js j d h =
    All-mono (λ k. k.id ≡ j.id → k ≡ j) (λ k. has_id j.id k ≡ true → is_pending k.status ≡ true)
      (λ k same e.
        subst (λ (x : Job). is_pending x.status ≡ true) (sym (same (ground arith)))
          (head_pending now locked js j h))
      js
      (find-All (λ j. All (λ k. k.id ≡ j.id → k ≡ j) js) (has_id j.id) js h.stored
        (Descending-unique n js d))

pub claim-IsWellFormed :
    (c : Clock) (locked : ℕ → Bool) (w : Text) (lease : ℤ) (db : Db)
    → IsWellFormed db
    → IsWellFormed (claim c locked w lease db).1
claim-IsWellFormed c locked w lease db v =
    claim_cases c locked w lease IsWellFormed db v.ids v λ j head. record {
      ids =
          unfold claimed claim_row in
          update-Descending (has_id j.id) (claim_row c w lease) (λ k. refl) db.next_id db.jobs
            v.ids;
      rows =
          unfold claimed in
          update_when-All IsSound (has_id j.id) (claim_row c w lease) db.jobs (
            All-mono (λ k. (has_id j.id k ≡ true → is_pending k.status ≡ true) × IsSound k)
              (λ k. IsSound k × (has_id j.id k ≡ true → IsSound (claim_row c w lease k)))
              (λ k h. (h.1, λ e. claim_row-IsSound c w lease k (h.0 e) h.1)) db.jobs
              (All-both (λ k. has_id j.id k ≡ true → is_pending k.status ≡ true) IsSound db.jobs
                (claimed_pending db.next_id c.now locked db.jobs j v.ids head) v.rows));
    }

pub complete-IsWellFormed :
    (c : Clock) (i : ℕ) (w : Text) (res : Report) (db : Db)
    → IsWellFormed db
    → IsWellFormed (complete c i w res db).1
complete-IsWellFormed c i w res db v =
    complete_cases c i w res db (λ r. IsWellFormed r.1) (λ f. v)
      (λ e. rw (replay_keeps i w completed db) v)
      λ j e.
        unfold reported complete_row in
        update-IsWellFormed (is_held i w) (complete_row c w res) (λ j. refl)
          (λ j h. complete_row-IsSound c w res j (held_running i w j h)) db _ v

pub fail_write-IsWellFormed :
    (c : Clock) (backoff : BackoffConfig) (attempts i : ℕ) (w : Text) (res : Report) (db : Db)
    → IsWellFormed db
    → IsWellFormed (fail_write c backoff attempts i w res db).1
fail_write-IsWellFormed c backoff attempts i w res db v =
    fail_write_cases c i w res db backoff attempts (λ r. IsWellFormed r.1) (λ f. v)
      (λ e. rw (replay_keeps i w failed db) v)
      λ j e.
        unfold reported fail_row in
        update-IsWellFormed (is_held i w) (fail_row c (delay backoff (pos attempts)) w res)
          (λ j. refl)
          (λ j h. fail_row-IsSound c (delay backoff (pos attempts)) w res j (held_running i w j h))
          db _ v

pub renew_lease-IsWellFormed :
    (c : Clock) (i : ℕ) (w : Text) (lease : ℤ) (db : Db)
    → IsWellFormed db
    → IsWellFormed (renew_lease c i w lease db).1
renew_lease-IsWellFormed c i w lease db v = elim (Option-cases (find (is_held i w) db.jobs)) [
  | inl e ↦ rw (renew_lost c i w lease db e, explain_keeps i db) v
  | inr (j, e) ↦ rw (renew_held c i w lease db j e) (
      unfold renew_row in
      update-IsWellFormed (is_held i w) (renew_row c lease) (λ j. refl)
        (λ j h. renew_row-IsSound c lease j (held_running i w j h)) db _ v)
]

pub cancel-IsWellFormed :
    (c : Clock) (i : ℕ) (db : Db) → IsWellFormed db → IsWellFormed (cancel c i db).1
cancel-IsWellFormed c i db v =
    elim (Option-cases (find (λ k. k.id == i && is_pending k.status) db.jobs)) [
      | inl e ↦ rw (cancel_other c i db e, explain_cancel_keeps i db) v
      | inr (j, e) ↦ rw (cancel_pending c i db j e) (
          unfold cancel_row in
          update-IsWellFormed (λ k. k.id == i && is_pending k.status) (cancel_row c) (λ j. refl)
            (λ j h. cancel_row-IsSound c j (ground arith)) db _ v)
    ]
