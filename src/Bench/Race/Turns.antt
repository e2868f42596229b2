-- ===== src/Bench/Race/Turns.antt =====
-- What one request of a claimer does.
use jobqueue.Common.{
  is_some, Option-cases, ℤ, Text, trim_space, ℕ, suc, ◌≡◌, refl, sym, ap, subst, ◌∙◌, ◌≢◌, ◌⊎◌, inl,
  inr, Bool, true, false, Option, none, some, List, arith,
}
use jobqueue.Jobs.{Job, WorkerRow, Result, no_jobs, ok, err}
use jobqueue.Jobs.Validate.{is_empty}
use jobqueue.Store.{find, has_id, is_worker, is_pending, is_running, Db, Clock}
use jobqueue.Store.Rows.{Descending, update-Descending}
use jobqueue.Store.Claim.{next_claimable, claim_row, stamp_row, claim}
use jobqueue.Store.Claim.Choice.{next_claimable-IsHead, IsHead}
use jobqueue.Store.Claim.Outcome.{claimed, claim-none, claim_known, claimed_hit, claimed_miss}
use jobqueue.Store.Invariant.Staff.{update-Grows}
use jobqueue.Bench.Http.{claim_one_no_jobs, claim_one_job, BenchError}
use jobqueue.Bench.Race.{
  claim_lease, claim_body, read_claim, request_claim, count_pending, running_row, running_at,
  count_pending-update,
}
use jobqueue.Api.{reply_with, ServerConfig, Message}
use jobqueue.Api.Requests.{decode, clamp_lease}
use jobqueue.Api.Jobs.{job_reply}
use jobqueue.Api.Reports.{handle_claim}

-- A claimer whose name has no space around it, registered.
pub record IsFit (ws : List WorkerRow) (w : Text) : Type 0 where
  pub trimmed : trim_space w ≡ w
  pub named : is_empty w ≡ false
  pub registered : is_some (find (is_worker w) ws) ≡ true

-- A PENDING job was handed out, and is RUNNING now.
pub record Took (db db' : Db) (i : ℕ) : Type 0 where
  pub before : running_at i db ≡ 0
  pub after : running_at i db' ≡ 1
  pub others : (k : ℕ) → k ≢ i → running_at k db' ≡ running_at k db
  pub one_less : count_pending db.jobs ≡ suc (count_pending db'.jobs)
  pub keys : Descending db'.next_id db'.jobs
  pub fleet : (w : Text) → IsFit db.workers w → IsFit db'.workers w

abbrev pub Answered : Db → (BenchError ⊎ Option ℕ) × Db → Type 0
Answered db (inl e, db') = ⊥
Answered db (inr none, db') = db' ≡ db
Answered db (inr (some i), db') = Took db db' i

registered_row :
    (ws : List WorkerRow) (w : Text)
    → is_some (find (is_worker w) ws) ≡ true
    → (r : WorkerRow) × (find (is_worker w) ws ≡ some r)
registered_row ws w h = elim (Option-cases (find (is_worker w) ws)) [
  | inl e ↦ absurd (cc (rw e at h))
  | inr found ↦ found
]

pending_not_running : (j : Job) → is_pending j.status ≡ true → is_running j.status ≡ false
pending_not_running j h = ground arith

module _ (c : Clock) (locked : ℕ → Bool) (w : Text) (lease : ℤ) where
  claimed_fleet :
      (db : Db) (j : Job) (v : Text)
      → IsFit db.workers v
      → IsFit (claimed c locked w lease db j).workers v
  unfolding claimed
  claimed_fleet db j v h = record {
    trimmed = h.trimmed;
    named = h.named;
    registered =
        update-Grows (is_worker w) (stamp_row c j.id) (λ r. unfold stamp_row in refl) db.workers
          (some v) h.registered;
  }

  claimed-Took :
      (db : Db) (j : Job)
      → Descending db.next_id db.jobs
      → IsHead c.now locked db.jobs j
      → Took db (claimed c locked w lease db j) j.id
  unfolding running_at
  claimed-Took db j d head =
      let waits : is_pending j.status ≡ true = ground (arith, head.claimable) in
      record {
        before = rw (head.stored, pending_not_running j waits) refl;
        after = rw (claimed_hit c locked w lease db j head.stored) (unfold claim_row in refl);
        others = λ k ne. ap running_row (claimed_miss c locked w lease db j k ne);
        one_less =
            unfold claimed in
            count_pending-update db.next_id j.id (claim_row c w lease) db.jobs j d head.stored waits
              (unfold claim_row in refl);
        keys =
            unfold claimed in
            update-Descending (has_id j.id) (claim_row c w lease) (λ k. unfold claim_row in refl)
              db.next_id db.jobs d;
        fleet = claimed_fleet db j;
      }

module _ (cfg : ServerConfig) (render : Message → Text) (c : Clock) (locked : ℕ → Bool) where
  handle_claim_eq :
      (w : Text) (db : Db)
      → IsFit db.workers w
      → handle_claim cfg c locked (claim_body w) db
        ≡ reply_with (job_reply 200) (claim c locked w (clamp_lease cfg claim_lease) db)
  unfolding handle_claim claim_body decode
  handle_claim_eq w db h = rw (h.trimmed, handle_claim) (rw h.named refl)

  -- A registered claimer is told that nothing is claimable, or is given a PENDING job.
  pub request_claim-Answered :
      (w : Text) (db : Db)
      → Descending db.next_id db.jobs
      → IsFit db.workers w
      → Answered db (request_claim cfg render c locked w db)
  unfolding request_claim read_claim
  request_claim-Answered w db d h =
      let lease = clamp_lease cfg claim_lease in
      let answers : (r : Result Job × Db)
          → claim c locked w lease db ≡ r
          → handle_claim cfg c locked (claim_body w) db ≡ reply_with (job_reply 200) r =
        λ r e. handle_claim_eq w db h ∙ ap (reply_with (job_reply 200)) e in
      elim (Option-cases (next_claimable c.now locked db.jobs)) [
        | inl e ↦
            subst (λ r. Answered db (read_claim render r))
              (sym (answers (err no_jobs, db) (claim-none c locked w lease db e)))
              (rw (claim_one_no_jobs render) refl)
        | inr (j, e) ↦
            let head = next_claimable-IsHead c.now locked db.next_id db.jobs j d e in
            let (r, s) = registered_row db.workers w h.registered in
            subst (λ r. Answered db (read_claim render r))
              (sym (
                answers (ok (claim_row c w lease j), claimed c locked w lease db j)
                  (claim_known c locked w lease db j r e head.stored s)))
              (subst (λ a. Answered db (a, claimed c locked w lease db j))
                (sym (claim_one_job render (claim_row c w lease j)))
                (unfold claim_row in claimed-Took c locked w lease db j d head))
      ]
