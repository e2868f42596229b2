-- ===== src/Api/Server/Atomic.antt =====
-- internal/jobs/store.go: what the errors of the operations do to the database.
use jobqueue.Common.{◌==◌, Option-cases, ◌≤ℤ◌, ℤ, pos, Text, ℕ, ◌≡◌, refl, inl, inr, Bool, ◌&&◌}
use jobqueue.Jobs.{Result, completed, failed, ok, err}
use jobqueue.Jobs.Backoff.{BackoffConfig}
use jobqueue.Store.{find, commit, is_worker, is_pending, is_held, Db, Clock}
use jobqueue.Store.Claim.{claim}
use jobqueue.Store.Report.{renew_lease, complete, fail_write, cancel, Report}
use jobqueue.Store.Report.Outcome.{
  complete_cases, fail_write_cases, renew_held, renew_lost, replay_keeps, explain_keeps,
  cancel_pending, cancel_other, explain_cancel_keeps,
}
use jobqueue.Store.Reads.{create, create_in_range}
use jobqueue.Store.Fleet.{register_worker, heartbeat}

-- An error of the store leaves the database as it was.
abbrev pub Atomic : {A : Type 0} → Db → Result A × Db → Type 0
Atomic db (ok a, db') = Unit {0}
Atomic db (err e, db') = db' ≡ db

pub same-Atomic : {A : Type 0} (db : Db) (r : Result A × Db) → r.1 ≡ db → Atomic db r
same-Atomic db (ok a, db') h = tt
same-Atomic db (err e, db') h = h

pub commit-Atomic : {A : Type 0} (db : Db) (r : Result A × Db) → Atomic db (commit db r)
commit-Atomic db (ok a, db') = tt
commit-Atomic db (err e, db') = refl

pub claim-Atomic :
    (c : Clock) (locked : ℕ → Bool) (w : Text) (lease : ℤ) (db : Db)
    → Atomic db (claim c locked w lease db)
unfolding claim
claim-Atomic c locked w lease db = commit-Atomic db _

pub complete-Atomic :
    (c : Clock) (i : ℕ) (w : Text) (res : Report) (db : Db) → Atomic db (complete c i w res db)
complete-Atomic c i w res db =
    complete_cases c i w res db (Atomic db) (λ f. refl)
      (λ e. same-Atomic db _ (replay_keeps i w completed db)) (λ j e. tt)

pub fail_write-Atomic :
    (c : Clock) (backoff : BackoffConfig) (n i : ℕ) (w : Text) (res : Report) (db : Db)
    → Atomic db (fail_write c backoff n i w res db)
fail_write-Atomic c backoff n i w res db =
    fail_write_cases c i w res db backoff n (Atomic db) (λ f. refl)
      (λ e. same-Atomic db _ (replay_keeps i w failed db)) (λ j e. tt)

pub renew_lease-Atomic :
    (c : Clock) (i : ℕ) (w : Text) (lease : ℤ) (db : Db) → Atomic db (renew_lease c i w lease db)
renew_lease-Atomic c i w lease db = elim (Option-cases (find (is_held i w) db.jobs)) [
  | inl e ↦ rw (renew_lost c i w lease db e) (same-Atomic db _ (explain_keeps i db))
  | inr (j, e) ↦ rw (renew_held c i w lease db j e) tt
]

pub cancel-Atomic : (c : Clock) (i : ℕ) (db : Db) → Atomic db (cancel c i db)
cancel-Atomic c i db = elim (Option-cases (find (λ k. k.id == i && is_pending k.status) db.jobs)) [
  | inl e ↦ rw (cancel_other c i db e) (same-Atomic db _ (explain_cancel_keeps i db))
  | inr (j, e) ↦ rw (cancel_pending c i db j e) tt
]

pub register_worker-Atomic :
    (c : Clock) (w hostname : Text) (db : Db) → Atomic db (register_worker c w hostname db)
unfolding register_worker
register_worker-Atomic c w hostname db = elim (Option-cases (find (is_worker w) db.workers)) [
  | inl e ↦ rw (e, register_worker) tt
  | inr (r, e) ↦ rw (e, register_worker) tt
]

pub heartbeat-Atomic : (c : Clock) (w : Text) (db : Db) → Atomic db (heartbeat c w db)
unfolding heartbeat
heartbeat-Atomic c w db = elim (Option-cases (find (is_worker w) db.workers)) [
  | inl e ↦ rw (e, heartbeat) refl
  | inr (r, e) ↦ rw (e, heartbeat) tt
]

-- A request that passed `ValidateNew` meets no constraint of the table.
pub create-Atomic :
    (c : Clock) (type payload : Text) (n : ℤ) (db : Db)
    → pos 1 ≤ℤ n
    → n ≤ℤ pos 100
    → Atomic db (create c type payload n db)
create-Atomic c type payload n db lo hi = rw (create_in_range c type payload n db lo hi) tt
