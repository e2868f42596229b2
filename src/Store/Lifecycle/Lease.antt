-- ===== src/Store/Lifecycle/Lease.antt =====
-- internal/jobs/store.go: the job of a worker, for as long as its lease runs.
use mathlib.Core.Option
use jobqueue.Common.{
  ◌==◌, if◌then◌else◌, Bool-cases, some_injective, ℤ, pos, Text, text_eq, text_eq_refl, ℕ, ◌≤◌, ◌≡◌,
  refl, sym, ap, subst, ◌∙◌, ◌≢◌, inl, inr, Bool, true, false, ◌&&◌, some, List, [], ◌∷◌, arith,
}
use jobqueue.Jobs.{Job, running, ok}
use jobqueue.Jobs.Backoff.{delay, BackoffConfig}
use jobqueue.Store.{find, update_one, update, has_id, is_pending, is_held, Db, Clock}
use jobqueue.Store.Rows.{Descending-find_lt, find_id-update, find_id-update_hit}
use jobqueue.Store.Reads.{create}
use jobqueue.Store.Claim.{claim}
use jobqueue.Store.Claim.Outcome.{claimed_miss, claim_cases}
use jobqueue.Store.Report.{
  renew_row, renew_lease, complete_row, fail_row, complete, fail_write, cancel_row, cancel, Report,
  fits_integer,
}
use jobqueue.Store.Report.Fencing.{is_holder, complete_answer}
use jobqueue.Store.Reap.Effect.{sweep_outcome}
use jobqueue.Store.Machine.{
  step, run, Call, creates, claims, renews, completes, fails, cancels, reaps, registers, beats,
}
use jobqueue.Store.Invariant.{IsWellFormed}
use jobqueue.Store.Invariant.Steps.{head_pending}
use jobqueue.Store.Invariant.Runs.{step-IsWellFormed}
use jobqueue.Store.Lifecycle.Steps.{register_worker-jobs, heartbeat-jobs}
use jobqueue.Store.Report.Updates.{
  is_reported, complete-jobs, fail_write-jobs, renew_lease-jobs, cancel-jobs,
}

module _ (i : ℕ) (w : Text) where
  -- The row of a job that the worker runs under a lease that ends at t.
  pub record IsLeased (t : ℕ) (j : Job) : Type 0 where
    pub same_id : j.id ≡ i
    pub runs : j.status ≡ running
    pub owned : j.worker_id ≡ some w
    pub until : j.lease_until ≡ some t

  -- The job's own worker speaks.
  abbrev is_own : ℕ → Text → Bool
  is_own k v = i == k && text_eq w v

  -- The end of the lease behind a call: a renewal by the worker moves it.
  abbrev lease_end : Clock → Call → ℕ → ℕ
  lease_end c (renews k v lease) t = if is_own k v then c.after lease else t
  lease_end c _ t = t

  -- The calls that leave the worker its job: not its own report, and no sweep later than the end of the
  -- lease.
  abbrev IsHarmless : Clock → Call → ℕ → Type 0
  IsHarmless c (completes k v res) t = is_own k v ≡ false
  IsHarmless c (fails attempts k v res) t = is_own k v ≡ false
  IsHarmless c (reaps locked batch) t = c.now ≤ t
  IsHarmless c _ t = Unit {0}

  abbrev pub AreHarmless : ℕ → List (Clock × Call) → Type 0
  AreHarmless t [] = Unit {0}
  AreHarmless t ((c, call) ∷ ss) = IsHarmless c call t × AreHarmless (lease_end c call t) ss

  -- The row of the job in the tables.
  abbrev Keeps : ℕ → Job → Db → Type 0
  Keeps t j db =
      (k : Job) × (find (has_id i) db.jobs ≡ some k) × IsLeased t k × (k.attempts ≡ j.attempts)

  held_iff : (t : ℕ) (j : Job) (k : ℕ) (v : Text) → IsLeased t j → is_held k v j ≡ is_own k v
  held_iff t j k v h = rw (h.same_id, h.runs, h.owned) refl

  reported_own :
      (t : ℕ) (j : Job) (k : ℕ) (v : Text) (res : Report)
      → IsLeased t j
      → is_own k v ≡ false
      → is_reported k v res j ≡ false
  reported_own t j k v res h n = ground (arith, held_iff t j k v h)

  renewed_row :
      (c : Clock) (lease : ℤ) (t : ℕ) (j : Job)
      → IsLeased t j
      → IsLeased (c.after lease) (renew_row c lease j)
  unfolding renew_row
  renewed_row c lease t j h = record {
    same_id = h.same_id;
    runs = h.runs;
    owned = h.owned;
    until = refl;
  }

  -- An UPDATE that passes the row over.
  update_other :
      (p : Job → Bool) (f : Job → Job) (t : ℕ) (j : Job) (db db' : Db)
      → ((j : Job) → (f j).id ≡ j.id)
      → db'.jobs ≡ update p f db.jobs
      → find (has_id i) db.jobs ≡ some j
      → IsLeased t j
      → p j ≡ false
      → Keeps t j db'
  update_other p f t j db db' same e s h n = (
    j,
    ap (find (has_id i)) e
        ∙ find_id-update p f same i db.jobs
        ∙ ap (Option.map (update_one p f)) s
        ∙ rw n refl,
    h,
    refl,
  )

  module _ (backoff : BackoffConfig) where
    claim-Keeps :
        (c : Clock) (locked : ℕ → Bool) (v : Text) (lease : ℤ) (t : ℕ) (j : Job) (db : Db)
        → IsWellFormed db
        → find (has_id i) db.jobs ≡ some j
        → IsLeased t j
        → Keeps t j (claim c locked v lease db).1
    claim-Keeps c locked v lease t j db wf s h =
        claim_cases c locked v lease (Keeps t j) db wf.ids (j, s, h, refl)
          λ k head.
            let ne : i ≢ k.id = λ e.
              let same : k ≡ j =
                some_injective (sym head.stored ∙ ap (λ n. find (has_id n) db.jobs) (sym e) ∙ s) in
              let waits : is_pending j.status ≡ true =
                subst (λ x. is_pending x.status ≡ true) same
                  (head_pending c.now locked db.jobs k head) in
              absurd (cc (rw h.runs at waits)) in
            (j, claimed_miss c locked v lease db k i ne ∙ s, h, refl)

    renew-Keeps :
        (c : Clock) (k : ℕ) (v : Text) (lease : ℤ) (t : ℕ) (j : Job) (db : Db)
        → find (has_id i) db.jobs ≡ some j
        → IsLeased t j
        → Keeps (lease_end c (renews k v lease) t) j (renew_lease c k v lease db).1
    renew-Keeps c k v lease t j db s h = elim (Bool-cases (is_own k v)) [
      | inl y ↦
          let held : is_held k v j ≡ true = held_iff t j k v h ∙ y in
          (
            renew_row c lease j,
            ap (find (has_id i)) (renew_lease-jobs c k v lease db)
                ∙ find_id-update_hit (is_held k v) (renew_row c lease)
                    (unfold renew_row in λ j. refl) i db.jobs j s held,
            rw y (renewed_row c lease t j h),
            unfold renew_row in refl,
          )
      | inr n ↦ rw n (
          update_other (is_held k v) (renew_row c lease) t j db (renew_lease c k v lease db).1
            (unfold renew_row in λ j. refl) (renew_lease-jobs c k v lease db) s h
            (held_iff t j k v h ∙ n))
    ]

    step-Keeps :
        (c : Clock) (call : Call) (t : ℕ) (j : Job) (db : Db)
        → IsWellFormed db
        → find (has_id i) db.jobs ≡ some j
        → IsLeased t j
        → IsHarmless c call t
        → Keeps (lease_end c call t) j (step backoff db (c, call))
    unfolding step
    step-Keeps c (creates type payload n) t j db v s h ok' = (
      j,
      unfold create find in ground (arith, Descending-find_lt db.next_id i db.jobs {j = j} v.ids s),
      h,
      refl,
    )
    step-Keeps c (claims locked u lease) t j db v s h ok' =
        claim-Keeps c locked u lease t j db v s h
    step-Keeps c (renews k u lease) t j db v s h ok' = renew-Keeps c k u lease t j db s h
    step-Keeps c (completes k u res) t j db v s h ok' =
        update_other (is_reported k u res) (complete_row c u res) t j db (complete c k u res db).1
          (unfold complete_row in λ j. refl) (complete-jobs c k u res db) s h
          (reported_own t j k u res h ok')
    step-Keeps c (fails attempts k u res) t j db v s h ok' =
        update_other (is_reported k u res) (fail_row c (delay backoff (pos attempts)) u res) t j db
          (fail_write c backoff attempts k u res db).1 (unfold fail_row in λ j. refl)
          (fail_write-jobs c backoff attempts k u res db) s h (reported_own t j k u res h ok')
    step-Keeps c (cancels k) t j db v s h ok' =
        update_other (λ x. x.id == k && is_pending x.status) (cancel_row c) t j db (cancel c k db).1
          (unfold cancel_row in λ j. refl) (cancel-jobs c k db) s h (ground (arith, h.runs))
    step-Keeps c (reaps locked batch) t j db v s h ok' =
        let (kept, _, _) = sweep_outcome c backoff locked batch db i j v.ids s in
        (j, kept (ground (arith, h.runs, h.until)), h, refl)
    step-Keeps c (registers u hostname) t j db v s h ok' =
        (j, ap (find (has_id i)) (register_worker-jobs c u hostname db) ∙ s, h, refl)
    step-Keeps c (beats u) t j db v s h ok' =
        (j, ap (find (has_id i)) (heartbeat-jobs c u db) ∙ s, h, refl)

    run-Keeps :
        (ss : List (Clock × Call)) (t : ℕ) (j : Job) (db : Db)
        → IsWellFormed db
        → find (has_id i) db.jobs ≡ some j
        → IsLeased t j
        → AreHarmless t ss
        → (k : Job) × (find (has_id i) (run backoff db ss).jobs ≡ some k)
          × (k.status ≡ running)
          × (k.worker_id ≡ some w)
          × (k.attempts ≡ j.attempts)
          × IsWellFormed (run backoff db ss)
    unfolding run
    run-Keeps [] t j db v s h ok' = (j, s, h.runs, h.owned, refl, v)
    run-Keeps ((c, call) ∷ ss) t j db v s h ok' =
        let (k, e, h', a) = step-Keeps c call t j db v s h ok'.0 in
        let (l, e', r, o, a', v') =
          run-Keeps ss (lease_end c call t) k (step backoff db (c, call))
            (step-IsWellFormed backoff db (c, call) v) e h' ok'.1 in
        (l, e', r, o, a' ∙ a, v')

    -- A lease keeps the job for its worker. From well-formed tables where a worker runs a job, after any calls of
    -- the store but the worker's own report on it, and but sweeps later than the lease, whose end each
    -- renewal by the worker moves, the job is still RUNNING under the worker, at the same
    -- attempt: no claim, report of another worker, cancellation or sweep takes it. The worker's completion,
    -- with an exit code that is an INTEGER, is then accepted.
    pub lease_lem :
        (ss : List (Clock × Call)) (t : ℕ) (j : Job) (db : Db) (c : Clock) (res : Report)
        → IsWellFormed db
        → find (has_id i) db.jobs ≡ some j
        → IsLeased t j
        → AreHarmless t ss
        → fits_integer res.exit_code ≡ true
        → let db' = run backoff db ss in
          (k : Job) × (find (has_id i) db'.jobs ≡ some k)
          × (k.status ≡ running)
          × (k.worker_id ≡ some w)
          × (k.attempts ≡ j.attempts)
          × ((complete c i w res db').0 ≡ ok (complete_row c w res k))
    lease_lem ss t j db c res v s h ok' fits =
        let (k, e, r, o, a, v') = run-Keeps ss t j db v s h ok' in
        let holds : is_holder w k ≡ true = rw (r, o) (text_eq_refl w) in
        let answer = complete_answer c i w res fits (run backoff db ss) k v'.ids e in
        (k, e, r, o, a, ap (λ x. x.0) (rw holds at answer))
