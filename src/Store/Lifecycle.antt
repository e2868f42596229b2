-- ===== src/Store/Lifecycle.antt =====
-- The lifecycle of a job (the diagram of internal/jobs/job.go and docs/DESIGN.md), as a relation between a
-- row and what one call of the store leaves in its place.
pub mod Steps
pub mod Dispatch
pub mod Lease
use jobqueue.Common.{
  is_some, Bool-cases, ℤ, Text, text_eq_iff, ◌+◌, ◌≤◌, ◌<◌, ◌≡◌, refl, sym, ap, inl, inr, true,
  Option, none, some, arith,
}
use jobqueue.Jobs.{Job, pending, running, completed, failed, canceled}
use jobqueue.Jobs.Backoff.{BackoffConfig}
use jobqueue.Store.{is_pending, is_running, owner_is, Clock}
use jobqueue.Store.Claim.{claim_row}
use jobqueue.Store.Report.{renew_row, complete_row, is_exhausted, fail_row, cancel_row, Report}
use jobqueue.Store.Reap.{expired_of, reap_row}

pub data Edge (j k : Job) : Type 0 where
  stay : k ≡ j → Edge j k
  dispatch :
      j.status ≡ pending
      → k.status ≡ running
      → k.attempts ≡ j.attempts + 1
      → is_some k.worker_id ≡ true
      → Edge j k
  extend :
      j.status ≡ running
      → k.status ≡ running
      → k.attempts ≡ j.attempts
      → k.worker_id ≡ j.worker_id
      → Edge j k
  finish :
      j.status ≡ running
      → k.status ≡ completed
      → k.attempts ≡ j.attempts
      → k.worker_id ≡ j.worker_id
      → Edge j k
  retry :
      j.status ≡ running
      → k.status ≡ pending
      → k.attempts ≡ j.attempts
      → j.attempts < j.max_attempts
      → k.worker_id ≡ none
      → Edge j k
  give_up :
      j.status ≡ running
      → k.status ≡ failed
      → k.attempts ≡ j.attempts
      → j.max_attempts ≤ j.attempts
      → k.worker_id ≡ j.worker_id
      → Edge j k
  withdraw : j.status ≡ pending → k.status ≡ canceled → k.attempts ≡ j.attempts → Edge j k

-- An edge of the diagram, and what no call ever changes.
pub record Moves (j k : Job) : Type 0 where
  pub edge : Edge j k
  pub same_id : k.id ≡ j.id
  pub same_type : k.type ≡ j.type
  pub same_payload : k.payload ≡ j.payload
  pub same_budget : k.max_attempts ≡ j.max_attempts
  pub same_birth : k.created_at ≡ j.created_at

pub stays-Moves : (j : Job) → Moves j j
stays-Moves j = record {
  edge = stay refl;
  same_id = refl;
  same_type = refl;
  same_payload = refl;
  same_budget = refl;
  same_birth = refl;
}

abbrev moves :
    (j k : Job)
    → Edge j k
    → k.id ≡ j.id
    → k.type ≡ j.type
    → k.payload ≡ j.payload
    → k.max_attempts ≡ j.max_attempts
    → k.created_at ≡ j.created_at
    → Moves j k
moves j k e a b c d f = record {
  edge = e;
  same_id = a;
  same_type = b;
  same_payload = c;
  same_budget = d;
  same_birth = f;
}

pub claim_row-Moves :
    (c : Clock) (w : Text) (lease : ℤ) (j : Job)
    → is_pending j.status ≡ true
    → Moves j (claim_row c w lease j)
unfolding claim_row
claim_row-Moves c w lease j p =
    moves j _ (dispatch (ground arith) refl refl refl) refl refl refl refl refl

pub renew_row-Moves :
    (c : Clock) (lease : ℤ) (j : Job) → is_running j.status ≡ true → Moves j (renew_row c lease j)
unfolding renew_row
renew_row-Moves c lease j p =
    moves j _ (extend (ground arith) (ground arith) refl refl) refl refl refl refl refl

pub owner_of : (w : Text) (o : Option Text) → owner_is w o ≡ true → o ≡ some w
owner_of w none h = absurd (cc h)
owner_of w (some v) h = ap some ((text_eq_iff v w).0 h)

pub complete_row-Moves :
    (c : Clock) (w : Text) (res : Report) (j : Job)
    → is_running j.status ≡ true
    → owner_is w j.worker_id ≡ true
    → Moves j (complete_row c w res j)
unfolding complete_row
complete_row-Moves c w res j p o =
    moves j _ (finish (ground arith) refl refl (sym (owner_of w j.worker_id o))) refl refl refl refl
      refl

pub fail_row-Moves :
    (c : Clock) (wait : ℤ) (w : Text) (res : Report) (j : Job)
    → is_running j.status ≡ true
    → owner_is w j.worker_id ≡ true
    → Moves j (fail_row c wait w res j)
unfolding fail_row
fail_row-Moves c wait w res j p o = elim (Bool-cases (is_exhausted j)) [
  | inl x ↦
      moves j _
        (give_up (ground arith) (rw x) refl (ground arith) (rw x (sym (owner_of w j.worker_id o))))
        refl refl refl refl refl
  | inr x ↦
      moves j _ (retry (ground arith) (rw x) refl (ground arith) (rw x)) refl refl refl refl refl
]

pub cancel_row-Moves : (c : Clock) (j : Job) → is_pending j.status ≡ true → Moves j (cancel_row c j)
unfolding cancel_row
cancel_row-Moves c j p = moves j _ (withdraw (ground arith) refl refl) refl refl refl refl refl

pub reap_row-Moves :
    (c : Clock) (backoff : BackoffConfig) (j : Job)
    → is_running j.status ≡ true
    → Moves j (reap_row c backoff (expired_of j) j)
unfolding reap_row
reap_row-Moves c backoff j p = elim (Bool-cases (is_exhausted j)) [
  | inl x ↦
      moves j _ (give_up (ground arith) (rw x) refl (ground arith) (rw x)) refl refl refl refl refl
  | inr x ↦
      moves j _ (retry (ground arith) (rw x) refl (ground arith) (rw x)) refl refl refl refl refl
]
