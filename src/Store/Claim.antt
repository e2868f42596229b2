-- ===== src/Store/Claim.antt =====
-- internal/jobs/store.go: `Claim`. Other transactions that are open enter as the rows that they hold
-- locked, which SKIP LOCKED passes over.
pub mod Choice
pub mod Outcome
use jobqueue.Common.{
  ltb, leb, ◌==◌, if◌then◌else◌, ℤ, Text, ℕ, ◌+◌, Bool, not, ◌&&◌, ◌||◌, Option, none, some, List,
  [], ◌∷◌,
}
use jobqueue.Jobs.{Job, WorkerRow, running, no_jobs, unknown_worker, ok, err}
use jobqueue.Store.{
  Tx, ◌>>=◌, with_tx, update_job, update_workers, has_id, is_worker, is_pending, Clock,
}

-- status = 'PENDING' AND available_at <= now(), and not locked.
abbrev pub is_claimable : ℕ → (ℕ → Bool) → Job → Bool
is_claimable now locked j = (is_pending j.status && leb j.available_at now) && not (locked j.id)

-- ORDER BY available_at, id.
abbrev pub comes_first : Job → Job → Bool
comes_first j k =
    ltb j.available_at k.available_at || (j.available_at == k.available_at && leb j.id k.id)

abbrev pub earlier : Job → Option Job → Job
earlier j none = j
earlier j (some k) = if comes_first j k then j else k

-- The SELECT with its LIMIT 1.
unfoldable pub next_claimable : ℕ → (ℕ → Bool) → List Job → Option Job
next_claimable now locked [] = none
next_claimable now locked (j ∷ js) =
    let rest = next_claimable now locked js in
    if is_claimable now locked j then some (earlier j rest) else rest

unfoldable pub claim_row : Clock → Text → ℤ → Job → Job
claim_row c w lease j = record j {
  status = running;
  worker_id = some w;
  lease_until = some (c.after lease);
  attempts = j.attempts + 1;
  updated_at = c.now;
}

unfoldable pub stamp_row : Clock → ℕ → WorkerRow → WorkerRow
stamp_row c i r = record r { current_job_id = some i; last_heartbeat = c.now }

-- The UPDATE with the SELECT inside.
unfoldable pub claim_statement : Clock → (ℕ → Bool) → Text → ℤ → Tx Job
unfolding next_claimable update_job
claim_statement c locked w lease db = elim (next_claimable c.now locked db.jobs) [
  | none ↦ (err no_jobs, db)
  | some j ↦ update_job (has_id j.id) (claim_row c w lease) no_jobs db
]

abbrev pub require_worker : ℕ → Job → Tx Job
require_worker n j db = if n == 0 then (err unknown_worker, db) else (ok j, db)

unfoldable pub claim_tx : Clock → (ℕ → Bool) → Text → ℤ → Tx Job
unfolding claim_statement update_workers
claim_tx c locked w lease = do
  j ← claim_statement c locked w lease
  n ← update_workers (is_worker w) (stamp_row c j.id)
  require_worker n j

unfoldable pub claim : Clock → (ℕ → Bool) → Text → ℤ → Tx Job
unfolding claim_tx with_tx
claim c locked w lease = with_tx (claim_tx c locked w lease)
