-- ===== src/Store.antt =====
-- internal/jobs/store.go: the two tables, transactions, and the statements that the methods share.
pub mod Rows
pub mod Reads
pub mod Claim
pub mod Report
pub mod Reap
pub mod Fleet
pub mod Machine
pub mod Errors
pub mod Pages
pub mod Invariant
pub mod Lifecycle
use jobqueue.Common.{
  ℕ, ◌+◌, ◌≡◌, ℤ, Bool, true, false, Option, none, some, List, [], ◌∷◌, ◌==◌, if◌then◌else◌, ◌&&◌,
  Text, text_eq, length, select,
}
use jobqueue.Jobs.{
  Status, pending, running, completed, failed, canceled, Job, WorkerRow, Result, ok, err,
  StoreError,
}

-- The database: the jobs, newest first, the workers, and the next value of the id sequence.
pub record Db : Type 0 where
  pub jobs : List Job
  pub workers : List WorkerRow
  pub next_id : ℕ

-- The clock of a transaction: now(), and now() plus or minus make_interval(secs => d.Seconds()).
-- How that reads a duration is left open.
pub record Clock : Type 0 where
  pub now : ℕ
  pub after : ℤ → ℕ
  pub before : ℤ → ℕ

module _ {A : Type 0} where
  -- SELECT … WHERE p, and QueryRow, which reads the first row; no row is sql.ErrNoRows.
  unfoldable pub find : (A → Bool) → List A → Option A
  find p [] = none
  find p (a ∷ as') = if p a then some a else find p as'

  abbrev pub update_one : (A → Bool) → (A → A) → A → A
  update_one p f a = if p a then f a else a

  -- UPDATE … SET f WHERE p.
  unfoldable pub update : (A → Bool) → (A → A) → List A → List A
  update p f [] = []
  update p f (a ∷ as') = update_one p f a ∷ update p f as'

-- A step of a transaction: a result, and the database that the next statement sees.
abbrev pub Tx : Type 0 → Type 0
Tx A = Db → Result A × Db

abbrev pub bind : {A B : Type 0} → Result A × Db → (A → Tx B) → Result B × Db
bind (ok a, db) f = f a db
bind (err e, db) f = (err e, db)

infixl 5 ◌>>=◌
abbrev pub ◌>>=◌ : {A B : Type 0} → Tx A → (A → Tx B) → Tx B
◌>>=◌ m f db = bind (m db) f

abbrev pub return : {A : Type 0} → A → Tx A
return a db = (ok a, db)

abbrev pub commit : {A : Type 0} → Db → Result A × Db → Result A × Db
commit before (ok a, after) = (ok a, after)
commit before (err e, after) = (err e, before)

-- An error rolls back whatever the transaction had written.
unfoldable pub with_tx : {A : Type 0} → Tx A → Tx A
with_tx m db = commit db (m db)

-- UPDATE jobs … RETURNING, read by QueryRow: no row is the given error.
unfoldable pub update_job : (Job → Bool) → (Job → Job) → StoreError → Tx Job
unfolding find update
update_job p f e db = elim (find p db.jobs) [
  | none ↦ (err e, db)
  | some j ↦ (ok (f j), record db { jobs = update p f db.jobs })
]

-- UPDATE workers, with the number of rows affected.
unfoldable pub update_workers : (WorkerRow → Bool) → (WorkerRow → WorkerRow) → Tx ℕ
unfolding update
update_workers p f db =
    (ok (length (select p db.workers)), record db { workers = update p f db.workers })

abbrev pub has_id : ℕ → Job → Bool
has_id i j = j.id == i

abbrev pub is_worker : Text → WorkerRow → Bool
is_worker w r = text_eq r.id w

abbrev pub is_pending : Status → Bool
is_pending pending = true
is_pending _ = false

abbrev pub is_running : Status → Bool
is_running running = true
is_running _ = false

-- worker_id = $2; a NULL matches nothing.
abbrev pub owner_is : Text → Option Text → Bool
owner_is w none = false
owner_is w (some v) = text_eq v w

-- id = $1 AND status = 'RUNNING' AND worker_id = $2.
abbrev pub is_held : ℕ → Text → Job → Bool
is_held i w j = j.id == i && (is_running j.status && owner_is w j.worker_id)
