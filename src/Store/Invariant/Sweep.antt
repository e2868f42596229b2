-- ===== src/Store/Invariant/Sweep.antt =====
-- The sweep and the well-formedness of the database.
use jobqueue.Common.{
  ◌==◌, Bool-cases, All, ℤ, ℕ, ◌≡◌, refl, ap, inl, inr, Bool, true, ◌&&◌, List, [], ◌∷◌, arith,
}
use jobqueue.Jobs.{Job}
use jobqueue.Jobs.Backoff.{BackoffConfig}
use jobqueue.Store.{update_one, has_id, is_running, Db, Clock}
use jobqueue.Store.Rows.{update_when-All, update_each-All, All-both, All-mono, update-Descending}
use jobqueue.Store.Reap.{
  expired_of, batch_limit, expired_jobs, reap_row, reap_one, reap_all, reap_expired_leases, Expired,
}
use jobqueue.Store.Invariant.{reap_row-IsSound, IsSound, IsWellFormed}
use jobqueue.Store.Reap.Found.{Reads, found-Reads}

-- The readings of a sweep agree with the rows that it has still to write.
abbrev Agree : Expired → Job → Type 0
Agree e k =
    has_id e.id k ≡ true
    → is_running k.status ≡ true
    → (e.attempts ≡ k.attempts) × (e.max_attempts ≡ k.max_attempts)

module _ (c : Clock) (backoff : BackoffConfig) where
  abbrev takes : Expired → Job → Bool
  takes e j = j.id == e.id && is_running j.status

  reap_row-Agree :
      (e e' : Expired) (j : Job)
      → Agree e' j
      → Agree e' (update_one (takes e) (reap_row c backoff e) j)
  unfolding reap_row
  reap_row-Agree e e' j a = elim (Bool-cases (takes e j)) [
    | inl y ↦ rw y (λ _ r. absurd (ground arith))
    | inr n ↦ rw n a
  ]

  reap_one-IsWellFormed :
      (e : Expired) (db : Db)
      → All (Agree e) db.jobs
      → IsWellFormed db
      → IsWellFormed (reap_one c backoff e db)
  unfolding reap_one
  reap_one-IsWellFormed e db a v = record {
    ids =
        unfold reap_row in
        update-Descending (takes e) (reap_row c backoff e) (λ j. refl) db.next_id db.jobs v.ids;
    rows = update_when-All IsSound (takes e) (reap_row c backoff e) db.jobs (
        All-mono (λ k. Agree e k × IsSound k)
          (λ k. IsSound k × (takes e k ≡ true → IsSound (reap_row c backoff e k)))
          (λ k h. (
            h.1,
            λ y.
                let g = h.0 (ground arith) (ground arith) in
                reap_row-IsSound c backoff e k (ground arith) g.0 g.1 h.1,
          ))
          db.jobs (All-both (Agree e) IsSound db.jobs a v.rows));
  }

  reap_all-IsWellFormed :
      (es : List Expired) (db : Db)
      → All (λ e. All (Agree e) db.jobs) es
      → IsWellFormed db
      → IsWellFormed (reap_all c backoff es db)
  unfolding reap_all
  reap_all-IsWellFormed [] db a v = v
  reap_all-IsWellFormed (e ∷ es) db a v =
      reap_all-IsWellFormed es (reap_one c backoff e db)
        (All-mono (λ e'. All (Agree e') db.jobs)
          (λ e'. All (Agree e') (reap_one c backoff e db).jobs)
          (λ e' h.
            unfold reap_one in
            update_each-All (Agree e') (takes e) (reap_row c backoff e) (reap_row-Agree e e')
              db.jobs h)
          es a.1)
        (reap_one-IsWellFormed e db a.0 v)

pub reap-IsWellFormed :
    (c : Clock) (backoff : BackoffConfig) (locked : ℕ → Bool) (batch : ℤ) (db : Db)
    → IsWellFormed db
    → IsWellFormed (reap_expired_leases c backoff locked batch db).1
unfolding reap_expired_leases
reap-IsWellFormed c backoff locked batch db v =
    let found = expired_jobs c.now locked (batch_limit batch) db.jobs in
    reap_all-IsWellFormed c backoff found db
      (All-mono (λ e. All (Reads e) db.jobs) (λ e. All (Agree e) db.jobs)
        (λ e h.
          All-mono (Reads e) (Agree e)
            (λ k read y r.
              let same : e ≡ expired_of k = read (ground arith) in
              (ap (λ x. x.attempts) same, ap (λ x. x.max_attempts) same))
            db.jobs h)
        found (found-Reads c.now locked (batch_limit batch) db.next_id db.jobs v.ids))
      v
