-- ===== src/Store/Claim/Outcome.antt =====
-- What a claim returns and does, on every branch.
use jobqueue.Common.{
  ◌==◌, is_some, Option-cases, length, select, ℤ, Text, ℕ, ◌+◌, ◌≡◌, refl, ◌≢◌, inl, inr, Bool,
  true, false, none, some, List, [], ◌∷◌, arith,
}
use jobqueue.Jobs.{Job, WorkerRow, Result, running, no_jobs, unknown_worker, ok, err}
use jobqueue.Store.{find, update, update_job, has_id, is_worker, Db, Clock}
use jobqueue.Store.Rows.{Descending, find_id-update_hit, find_id-update_miss}
use jobqueue.Store.Claim.{next_claimable, claim_row, stamp_row, claim_statement, claim}
use jobqueue.Store.Claim.Choice.{NoneClaimable, next_claimable-none, next_claimable-IsHead, IsHead}

module _ (c : Clock) (locked : ℕ → Bool) (w : Text) (lease : ℤ) where
  -- What a claim promises of its result and the database that it leaves.
  abbrev pub Promises : Db → Result Job × Db → Type 0
  Promises db (ok j', db') =
      (j : Job) × IsHead c.now locked db.jobs j
      × (j' ≡ record j {
        status = running;
        worker_id = some w;
        lease_until = some (c.after lease);
        attempts = j.attempts + 1;
        updated_at = c.now;
      })
      × (find (has_id j.id) db'.jobs ≡ some j')
      × ((i : ℕ) → i ≢ j.id → find (has_id i) db'.jobs ≡ find (has_id i) db.jobs)
      × (is_some (find (is_worker w) db.workers) ≡ true)
      × (db'.workers
          ≡ update (is_worker w)
              (λ r. record r { current_job_id = some j.id; last_heartbeat = c.now }) db.workers)
      × (db'.next_id ≡ db.next_id)
  Promises db (err no_jobs, db') = NoneClaimable c.now locked db.jobs × (db' ≡ db)
  Promises db (err unknown_worker, db') =
      (j : Job) × IsHead c.now locked db.jobs j
      × (find (is_worker w) db.workers ≡ none)
      × (db' ≡ db)
  Promises db (err e, db') = ⊥

  select_of_none :
      (rows : List WorkerRow)
      → find (is_worker w) rows ≡ none
      → length (select (is_worker w) rows) ≡ 0
  unfolding find
  select_of_none [] h = refl
  select_of_none (r ∷ rows) h = ground (arith, select_of_none rows)

  select_of_some :
      (rows : List WorkerRow) (r : WorkerRow)
      → find (is_worker w) rows ≡ some r
      → (length (select (is_worker w) rows) == 0) ≡ false
  unfolding find
  select_of_some [] r h = absurd (cc h)
  select_of_some (s ∷ rows) r h = ground (arith, select_of_some rows r)

  -- The database of a claim that succeeds.
  unfoldable pub claimed : Db → Job → Db
  claimed db j = record db {
    jobs = update (has_id j.id) (claim_row c w lease) db.jobs;
    workers = update (is_worker w) (stamp_row c j.id) db.workers;
  }

  pub claim-none :
      (db : Db)
      → next_claimable c.now locked db.jobs ≡ none
      → claim c locked w lease db ≡ (err no_jobs, db)
  unfolding claim
  claim-none db e = ground arith

  pub claim_unknown :
      (db : Db) (j : Job)
      → next_claimable c.now locked db.jobs ≡ some j
      → find (has_id j.id) db.jobs ≡ some j
      → find (is_worker w) db.workers ≡ none
      → claim c locked w lease db ≡ (err unknown_worker, db)
  unfolding claim
  claim_unknown db j e s n = ground (arith, select_of_none db.workers n)

  claim_statement-some :
      (db : Db) (j : Job)
      → next_claimable c.now locked db.jobs ≡ some j
      → find (has_id j.id) db.jobs ≡ some j
      → claim_statement c locked w lease db ≡ (
        ok (claim_row c w lease j),
        record db { jobs = update (has_id j.id) (claim_row c w lease) db.jobs },
      )
  unfolding claim_statement
  claim_statement-some db j e s = rw (e, claim_statement) (rw (s, update_job))

  pub claim_known :
      (db : Db) (j : Job) (r : WorkerRow)
      → next_claimable c.now locked db.jobs ≡ some j
      → find (has_id j.id) db.jobs ≡ some j
      → find (is_worker w) db.workers ≡ some r
      → claim c locked w lease db ≡ (ok (claim_row c w lease j), claimed db j)
  unfolding claim claimed claim_row
  claim_known db j r e s n =
      rw (claim_statement-some db j e s, claim) (rw (select_of_some db.workers r n))

  claim_row_id : (j : Job) → (claim_row c w lease j).id ≡ j.id
  unfolding claim_row
  claim_row_id j = refl

  -- The UPDATE's effect on the table of jobs, through its primary key.
  pub claimed_hit :
      (db : Db) (j : Job)
      → find (has_id j.id) db.jobs ≡ some j
      → find (has_id j.id) (claimed db j).jobs ≡ some (claim_row c w lease j)
  unfolding claimed
  claimed_hit db j e =
      find_id-update_hit (has_id j.id) (claim_row c w lease) claim_row_id j.id db.jobs j e
        (ground arith)

  pub claimed_miss :
      (db : Db) (j : Job) (i : ℕ)
      → i ≢ j.id
      → find (has_id i) (claimed db j).jobs ≡ find (has_id i) db.jobs
  unfolding claimed
  claimed_miss db j i ne =
      find_id-update_miss (has_id j.id) (claim_row c w lease) claim_row_id i (λ k h. ground arith)
        db.jobs

  -- For every database whose job ids fall along its list, a claim returns one of three results, with what
  -- `Promises` states of it and of the database left behind. A job is the claimable and unlocked one that
  -- comes first by availability, then id, stored RUNNING under this registered worker with one more
  -- attempt, a lease that ends as long after now() as asked for, and the update time; all else of it and all
  -- other jobs are untouched, and the worker's row names the job and counts as a heartbeat. With no claimable job, or an unregistered worker, it
  -- is that error and the database is unchanged.
  pub claim-Promises :
      (db : Db) → Descending db.next_id db.jobs → Promises db (claim c locked w lease db)
  claim-Promises db d = elim (Option-cases (next_claimable c.now locked db.jobs)) [
    | inl e ↦ rw (claim-none db e) (next_claimable-none c.now locked db.jobs e, refl)
    | inr (j, e) ↦
        let head = next_claimable-IsHead c.now locked db.next_id db.jobs j d e in
        elim (Option-cases (find (is_worker w) db.workers)) [
          | inl n ↦ rw (claim_unknown db j e head.stored n) (j, head, n, refl)
          | inr (r, s) ↦ rw (claim_known db j r e head.stored s) (
            j,
            head,
            unfold claim_row in refl,
            claimed_hit db j head.stored,
            claimed_miss db j,
            rw s,
            unfold claimed stamp_row in refl,
            unfold claimed in refl,
          )
        ]
  ]

  -- What holds of the database, and of it after every claim that hands out its head, holds after a claim.
  pub claim_cases {κ} :
      (P : Db → Type κ) (db : Db)
      → Descending db.next_id db.jobs
      → P db
      → ((j : Job) → IsHead c.now locked db.jobs j → P (claimed db j))
      → P (claim c locked w lease db).1
  claim_cases P db d same taken = elim (Option-cases (next_claimable c.now locked db.jobs)) [
    | inl e ↦ rw (claim-none db e) same
    | inr (j, e) ↦
        let head = next_claimable-IsHead c.now locked db.next_id db.jobs j d e in
        elim (Option-cases (find (is_worker w) db.workers)) [
          | inl n ↦ rw (claim_unknown db j e head.stored n) same
          | inr (r, s) ↦ rw (claim_known db j r e head.stored s) (taken j head)
        ]
  ]
