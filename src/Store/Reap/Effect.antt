-- ===== src/Store/Reap/Effect.antt =====
-- What a sweep does to each job.
use mathlib.Core.Option
use jobqueue.Common.{
  ◌==◌, if◌then◌else◌, ==_iff, Bool-cases, length, select, All, length-map, ℤ, ℕ, ◌≤◌, ◌≡◌, refl,
  ap, ◌∙◌, ◌⊎◌, inl, inr, Bool, true, false, ◌&&◌, some, List, [], ◌∷◌, arith,
}
use jobqueue.Jobs.{Job, Result, ok, err}
use jobqueue.Jobs.Backoff.{BackoffConfig}
use jobqueue.Store.{find, update_one, has_id, is_running, Db, Clock}
use jobqueue.Store.Rows.{find-All, find_test, All-mono, Descending, find_id-update}
use jobqueue.Store.Reap.{
  is_expired, expired_of, batch_limit, expired_jobs, next_status, reap_row, reap_one, reaped_of,
  reap_all, reap_expired_leases, Expired,
}
use jobqueue.Store.Reap.Found.{
  Reads, contains_id, found-Reads, found_expired, length-found, found_all,
}

module _ (c : Clock) (backoff : BackoffConfig) where
  -- One round of the loop, on one row.
  abbrev round : Expired → Job → Job
  round e = update_one (λ j. j.id == e.id && is_running j.status) (reap_row c backoff e)

  rounds : List Expired → Job → Job
  rounds [] j = j
  rounds (e ∷ es) j = rounds es (round e j)

  reap_row_id : (e : Expired) (j : Job) → (reap_row c backoff e j).id ≡ j.id
  unfolding reap_row
  reap_row_id e j = refl

  find-reap_one :
      (e : Expired) (i : ℕ) (db : Db)
      → find (has_id i) (reap_one c backoff e db).jobs
        ≡ Option.map (round e) (find (has_id i) db.jobs)
  unfolding reap_one
  find-reap_one e i db =
      find_id-update (λ j. j.id == e.id && is_running j.status) (reap_row c backoff e)
        (reap_row_id e) i db.jobs

  find-reap_all :
      (es : List Expired) (i : ℕ) (db : Db) (j : Job)
      → find (has_id i) db.jobs ≡ some j
      → find (has_id i) (reap_all c backoff es db).jobs ≡ some (rounds es j)
  unfolding reap_all rounds
  find-reap_all [] i db j h = h
  find-reap_all (e ∷ es) i db j h =
      find-reap_all es i (reap_one c backoff e db) (round e j)
        (find-reap_one e i db ∙ ap (Option.map (round e)) h)

  next_not_running : (e : Expired) → is_running (next_status e) ≡ false
  next_not_running e = ground arith

  reap_row_stopped : (e : Expired) (j : Job) → is_running (reap_row c backoff e j).status ≡ false
  unfolding reap_row
  reap_row_stopped e j = next_not_running e

  round_passes :
      (e : Expired) (j : Job) → (j.id == e.id && is_running j.status) ≡ false → round e j ≡ j
  round_passes e j h = rw h

  round_takes :
      (e : Expired) (j : Job)
      → (j.id == e.id && is_running j.status) ≡ true
      → round e j ≡ reap_row c backoff e j
  round_takes e j h = rw h

  -- A row that is not RUNNING is left alone.
  rounds_stopped : (es : List Expired) (j : Job) → is_running j.status ≡ false → rounds es j ≡ j
  unfolding rounds
  rounds_stopped [] j h = refl
  rounds_stopped (e ∷ es) j h =
      ap (rounds es) (round_passes e j (ground arith)) ∙ rounds_stopped es j h

  -- So is one whose id was not found.
  rounds_other : (es : List Expired) (j : Job) → contains_id j.id es ≡ false → rounds es j ≡ j
  unfolding rounds
  rounds_other [] j h = refl
  rounds_other (e ∷ es) j h =
      ap (rounds es) (round_passes e j (ground arith)) ∙ rounds_other es j (ground arith)

  rounds_found :
      (es : List Expired) (j : Job)
      → All (λ e. Reads e j) es
      → is_running j.status ≡ true
      → contains_id j.id es ≡ true
      → rounds es j ≡ reap_row c backoff (expired_of j) j
  unfolding rounds
  rounds_found [] j all r h = absurd (cc h)
  rounds_found (e ∷ es) j all r h = elim (Bool-cases (j.id == e.id)) [
    | inl y ↦
        ap (rounds es) (round_takes e j (ground arith))
        ∙ rounds_stopped es (reap_row c backoff e j) (reap_row_stopped e j)
        ∙ ap (λ x. reap_row c backoff x j) (all.0 (ground arith))
    | inr n ↦
        ap (rounds es) (round_passes e j (ground arith)) ∙ rounds_found es j all.1 r (ground arith)
  ]

  -- The rows that the readings of the sweep agree with, seen from one row.
  pub Reads-row :
      (es : List Expired) (i : ℕ) (js : List Job) (j : Job)
      → find (has_id i) js ≡ some j
      → All (λ e. All (Reads e) js) es
      → All (λ e. Reads e j) es
  Reads-row es i js j s =
      All-mono (λ e. All (Reads e) js) (λ e. Reads e j)
        (λ e h. find-All (Reads e) (has_id i) js s h) es

module _ (c : Clock) (backoff : BackoffConfig) (locked : ℕ → Bool) (batch : ℤ) where
  -- The row of an id after a sweep.
  pub find-reap :
      (db : Db) (i : ℕ) (j : Job)
      → Descending db.next_id db.jobs
      → find (has_id i) db.jobs ≡ some j
      → find (has_id i) (reap_expired_leases c backoff locked batch db).1.jobs
        ≡ some (
            if contains_id i (expired_jobs c.now locked (batch_limit batch) db.jobs)
            then reap_row c backoff (expired_of j) j
            else j)
  unfolding reap_expired_leases
  find-reap db i j d s =
      let found = expired_jobs c.now locked (batch_limit batch) db.jobs in
      let same : j.id ≡ i = (==_iff j.id i).0 (find_test (has_id i) db.jobs {a = j} s) in
      find-reap_all c backoff found i db j s
      ∙ ap some (elim (Bool-cases (contains_id i found)) [
        | inl y ↦ rw y (
            rounds_found c backoff found j
              (Reads-row c backoff found i db.jobs j s
                (found-Reads c.now locked (batch_limit batch) db.next_id db.jobs d))
              (ground (
                arith,
                found_expired c.now locked (batch_limit batch) db.next_id i db.jobs j d s y,
              ))
              (rw same y))
        | inr n ↦ rw n (rounds_other c backoff found j (rw same n))
      ])

  -- Of every stored job: if its lease has not run out, or
  -- another transaction holds it, it is unchanged; otherwise it is unchanged or recovered, and when the
  -- batch has room for all expired jobs it is recovered. A recovered job is back PENDING, or FAILED if
  -- it is out of attempts, as `reap_row` writes it.
  pub sweep_outcome :
      (db : Db) (i : ℕ) (j : Job)
      → Descending db.next_id db.jobs
      → find (has_id i) db.jobs ≡ some j
      → let after = find (has_id i) (reap_expired_leases c backoff locked batch db).1.jobs in
        let recovered = reap_row c backoff (expired_of j) j in
        (is_expired c.now locked j ≡ false → after ≡ some j)
        × ((after ≡ some j) ⊎ (after ≡ some recovered))
        × (is_expired c.now locked j ≡ true
            → length (select (is_expired c.now locked) db.jobs) ≤ batch_limit batch
            → after ≡ some recovered)
  sweep_outcome db i j d s =
      let limit = batch_limit batch in
      let found = expired_jobs c.now locked limit db.jobs in
      let e = find-reap db i j d s in
      elim (Bool-cases (contains_id i found)) [
        | inl y ↦
            let x = found_expired c.now locked limit db.next_id i db.jobs j d s y in
            let is : find (has_id i) (reap_expired_leases c backoff locked batch db).1.jobs
                ≡ some (reap_row c backoff (expired_of j) j) =
              e ∙ rw y in
            ((λ n. absurd (cc (x, n))), inr is, (λ _ _. is))
        | inr n ↦
            let is : find (has_id i) (reap_expired_leases c backoff locked batch db).1.jobs
                ≡ some j =
              e ∙ rw n in
            (
              (λ _. is),
              inl is,
              (λ x h. absurd (cc (found_all c.now locked limit i db.jobs j s x h, n))),
            )
      ]

  abbrev reports : {A : Type 0} → Result (List A) → ℕ
  reports (ok rs) = length rs
  reports (err e) = 0

  -- The reports are at most a batch.
  pub reports-reap :
      (db : Db) → reports (reap_expired_leases c backoff locked batch db).0 ≤ batch_limit batch
  unfolding reap_expired_leases
  reports-reap db =
      let found = expired_jobs c.now locked (batch_limit batch) db.jobs in
      omega
        (arith, length-map reaped_of found, length-found c.now locked (batch_limit batch) db.jobs)
