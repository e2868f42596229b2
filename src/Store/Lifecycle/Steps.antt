-- ===== src/Store/Lifecycle/Steps.antt =====
-- The calls of the store and the lifecycle of a job, one by one.
use mathlib.Core.Option
use jobqueue.Common.{
  ◌==◌, ==_iff, Bool-cases, some_injective, ℤ, pos, Text, ℕ, ◌≡◌, refl, sym, ap, subst, ◌∙◌, ◌≢◌,
  inl, inr, Bool, true, ◌&&◌, some, arith,
}
use jobqueue.Jobs.{Job}
use jobqueue.Store.{
  find, update_one, update, has_id, is_pending, is_running, owner_is, is_held, Db, Clock,
}
use jobqueue.Store.Rows.{find_test, Descending-find_lt, find_id-update}
use jobqueue.Store.Lifecycle.{
  stays-Moves, claim_row-Moves, renew_row-Moves, complete_row-Moves, fail_row-Moves,
  cancel_row-Moves, reap_row-Moves, Moves,
}
use jobqueue.Jobs.Backoff.{delay, BackoffConfig}
use jobqueue.Store.Reads.{create}
use jobqueue.Store.Claim.{claim_row, claim}
use jobqueue.Store.Claim.Outcome.{claimed, claimed_hit, claimed_miss, claim_cases}
use jobqueue.Store.Report.{
  renew_row, renew_lease, complete_row, fail_row, complete, fail_write, cancel_row, cancel, Report,
}
use jobqueue.Store.Report.Updates.{
  is_reported, complete-jobs, fail_write-jobs, renew_lease-jobs, cancel-jobs,
}
use jobqueue.Store.Reap.{is_expired, expired_of, reap_row, reap_expired_leases}
use jobqueue.Store.Fleet.{register_worker, heartbeat}
use jobqueue.Store.Machine.{
  step, Call, creates, claims, renews, completes, fails, cancels, reaps, registers, beats,
}
use jobqueue.Store.Invariant.{IsWellFormed}
use jobqueue.Store.Invariant.Steps.{head_pending}
use jobqueue.Store.Reap.Effect.{sweep_outcome}

-- What became of each job.
abbrev pub Follows : Db → Db → Type 0
Follows db db' =
    (i : ℕ) (j : Job)
    → find (has_id i) db.jobs ≡ some j
    → (k : Job) × (find (has_id i) db'.jobs ≡ some k) × Moves j k

same-Follows : (db db' : Db) → db'.jobs ≡ db.jobs → Follows db db'
same-Follows db db' e i j s = (j, ap (find (has_id i)) e ∙ s, stays-Moves j)

-- A guarded UPDATE whose SET is an edge for each row that matches.
update-Follows :
    (p : Job → Bool) (f : Job → Job)
    → ((j : Job) → p j ≡ true → Moves j (f j))
    → ((j : Job) → (f j).id ≡ j.id)
    → (db db' : Db) → db'.jobs ≡ update p f db.jobs
    → Follows db db'
update-Follows p f edge same db db' e i j s = (
  update_one p f j,
  ap (find (has_id i)) e ∙ find_id-update p f same i db.jobs ∙ ap (Option.map (update_one p f)) s,
  elim (Bool-cases (p j)) [ inl y ↦ rw y (edge j y) | inr n ↦ rw n (stays-Moves j) ],
)

held_parts :
    (i : ℕ) (w : Text) (j : Job)
    → is_held i w j ≡ true
    → (is_running j.status ≡ true) × (owner_is w j.worker_id ≡ true)
held_parts i w j h = ground arith

create-Follows :
    (c : Clock) (type payload : Text) (n : ℤ) (db : Db)
    → IsWellFormed db
    → Follows db (create c type payload n db).1
unfolding create find
create-Follows c type payload n db v i j s =
    (j, ground (arith, Descending-find_lt db.next_id i db.jobs {j = j} v.ids s), stays-Moves j)

claim-Follows :
    (c : Clock) (locked : ℕ → Bool) (w : Text) (lease : ℤ) (db : Db)
    → IsWellFormed db
    → Follows db (claim c locked w lease db).1
claim-Follows c locked w lease db v =
    claim_cases c locked w lease (λ db'. Follows db db') db v.ids (same-Follows db db refl)
      λ j head i k s. elim (Bool-cases (k.id == j.id)) [
        | inl y ↦
            let here : i ≡ j.id =
              sym ((==_iff k.id i).0 (find_test (has_id i) db.jobs {a = k} s))
              ∙ (==_iff k.id j.id).0 y in
            let same : k ≡ j =
              some_injective (sym s ∙ ap (λ n. find (has_id n) db.jobs) here ∙ head.stored) in
            (
              claim_row c w lease j,
              ap (λ n. find (has_id n) (claimed c locked w lease db j).jobs) here
                  ∙ claimed_hit c locked w lease db j head.stored,
              subst (λ x. Moves x (claim_row c w lease j)) (sym same)
                  (claim_row-Moves c w lease j (head_pending c.now locked db.jobs j head)),
            )
        | inr n ↦
            let ne : i ≢ j.id = λ e. ground (arith, find_test (has_id i) db.jobs {a = k} s) in
            (k, claimed_miss c locked w lease db j i ne ∙ s, stays-Moves k)
      ]

complete-Follows :
    (c : Clock) (i : ℕ) (w : Text) (res : Report) (db : Db) → Follows db (complete c i w res db).1
complete-Follows c i w res db =
    update-Follows (is_reported i w res) (complete_row c w res)
      (λ j h. let (r, o) = held_parts i w j (ground arith) in complete_row-Moves c w res j r o)
      (unfold complete_row in λ j. refl) db (complete c i w res db).1 (complete-jobs c i w res db)

fail_write-Follows :
    (c : Clock) (backoff : BackoffConfig) (attempts i : ℕ) (w : Text) (res : Report) (db : Db)
    → Follows db (fail_write c backoff attempts i w res db).1
fail_write-Follows c backoff attempts i w res db =
    let wait = delay backoff (pos attempts) in
    update-Follows (is_reported i w res) (fail_row c wait w res)
      (λ j h. let (r, o) = held_parts i w j (ground arith) in fail_row-Moves c wait w res j r o)
      (unfold fail_row in λ j. refl) db (fail_write c backoff attempts i w res db).1
      (fail_write-jobs c backoff attempts i w res db)

renew_lease-Follows :
    (c : Clock) (i : ℕ) (w : Text) (lease : ℤ) (db : Db) → Follows db (renew_lease c i w lease db).1
renew_lease-Follows c i w lease db =
    update-Follows (is_held i w) (renew_row c lease)
      (λ j h. renew_row-Moves c lease j (held_parts i w j h).0) (unfold renew_row in λ j. refl) db
      (renew_lease c i w lease db).1 (renew_lease-jobs c i w lease db)

cancel-Follows : (c : Clock) (i : ℕ) (db : Db) → Follows db (cancel c i db).1
cancel-Follows c i db =
    update-Follows (λ k. k.id == i && is_pending k.status) (cancel_row c)
      (λ j h. cancel_row-Moves c j (ground arith)) (unfold cancel_row in λ j. refl) db
      (cancel c i db).1 (cancel-jobs c i db)

reap-Follows :
    (c : Clock) (backoff : BackoffConfig) (locked : ℕ → Bool) (batch : ℤ) (db : Db)
    → IsWellFormed db
    → Follows db (reap_expired_leases c backoff locked batch db).1
reap-Follows c backoff locked batch db v i j s =
    let (kept, either, _) = sweep_outcome c backoff locked batch db i j v.ids s in
    elim (Bool-cases (is_expired c.now locked j)) [
      | inl y ↦ elim either [
        | inl e ↦ (j, e, stays-Moves j)
        | inr e ↦
            (reap_row c backoff (expired_of j) j, e, reap_row-Moves c backoff j (ground arith))
      ]
      | inr n ↦ (j, kept n, stays-Moves j)
    ]

pub register_worker-jobs :
    (c : Clock) (w hostname : Text) (db : Db) → (register_worker c w hostname db).1.jobs ≡ db.jobs
unfolding register_worker
register_worker-jobs c w hostname db = ground arith

pub heartbeat-jobs : (c : Clock) (w : Text) (db : Db) → (heartbeat c w db).1.jobs ≡ db.jobs
unfolding heartbeat
heartbeat-jobs c w db = ground arith

module _ (backoff : BackoffConfig) where
  -- From a well-formed database every call, on every branch, leaves each stored job or moves it along one
  -- edge of the lifecycle: PENDING to RUNNING with one more attempt or to CANCELED; RUNNING renewed, to
  -- COMPLETED, to PENDING if attempts are left, to FAILED if none are. No job is lost, and its type,
  -- payload, budget and creation time never change.
  pub step-Follows : (db : Db) (s : Clock × Call) → IsWellFormed db → Follows db (step backoff db s)
  unfolding step
  step-Follows db (c, creates type payload n) v = create-Follows c type payload n db v
  step-Follows db (c, claims locked w lease) v = claim-Follows c locked w lease db v
  step-Follows db (c, renews i w lease) v = renew_lease-Follows c i w lease db
  step-Follows db (c, completes i w res) v = complete-Follows c i w res db
  step-Follows db (c, fails attempts i w res) v = fail_write-Follows c backoff attempts i w res db
  step-Follows db (c, cancels i) v = cancel-Follows c i db
  step-Follows db (c, reaps locked batch) v = reap-Follows c backoff locked batch db v
  step-Follows db (c, registers w hostname) v =
      same-Follows db (register_worker c w hostname db).1 (register_worker-jobs c w hostname db)
  step-Follows db (c, beats w) v = same-Follows db (heartbeat c w db).1 (heartbeat-jobs c w db)
