-- ===== src/Api/Reaper.antt =====
-- internal/api/reaper.go: the periodic sweep of expired leases.
use jobqueue.Common.{
  leb, ◌==◌, ==_iff, if◌then◌else◌, Bool-cases, All, leb_ℤ, ℤ, pos, Text, text, ℕ, ◌≡◌, ◌≤◌, ◌<◌,
  refl, sym, ap, subst, ◌∙◌, ◌⊎◌, inl, inr, Bool, true, false, Option, none, some, List, [], ◌∷◌,
  ◌++◌, map, arith,
}
use jobqueue.Jobs.{Job, Status, Result, pending, failed, ok, err}
use jobqueue.Jobs.Backoff.{BackoffConfig}
use jobqueue.Store.{find, has_id, Db, Clock}
use jobqueue.Store.Rows.{find_test, Descending}
use jobqueue.Store.Reap.{
  batch_limit, expired_of, expired_jobs, reap_row, reaped_of, reap_expired_leases, Expired, Reaped,
}
use jobqueue.Store.Reap.Found.{Reads, contains_id, found-Reads}
use jobqueue.Store.Reap.Effect.{Reads-row, find-reap}
use jobqueue.Store.Machine.{step, run, Call, reaps}
use jobqueue.Store.Invariant.{IsWellFormed}
use jobqueue.Store.Invariant.Runs.{run-IsWellFormed}

-- Reaper, without its store; the interval is in nanoseconds.
pub record Reaper : Type 0 where
  pub interval : ℤ
  pub batch : ℤ

unfoldable pub new_reaper : ℤ → ℤ → Reaper
new_reaper interval batch = record {
  interval = if leb_ℤ interval (pos 0) then pos 5_000_000_000 else interval;
  batch = batch;
}

-- The event that the log names.
unfoldable pub event_of : Status → Text
event_of pending = text "requeued_for_retry"
event_of failed = text "retries_exhausted"
event_of _ = []

-- A line of the log.
pub record Warning : Type 0 where
  pub job : Reaped
  pub event : Text

abbrev pub warning : Reaped → Warning
unfolding event_of
warning j = record { job = j; event = event_of j.status }

-- An error of the store ends the sweep without warnings.
unfoldable pub warnings : Result (List Reaped) → List Warning
unfolding event_of
warnings (ok reaped) = map warning reaped
warnings (err e) = []

abbrev pub is_about : ℕ → Warning → Bool
is_about i w = w.job.id == i

-- What a sweep logs of a job j, whose row is `after` behind it, in its lines.
abbrev pub IsLogged : Job → Option Job → Option Warning → Type 0
IsLogged j after line =
    ((after ≡ some j) × (line ≡ none))
    ⊎ ((k : Job) × (w : Warning) × (after ≡ some k)
        × (line ≡ some w)
        × (w.job.status ≡ k.status)
        × (w.job.attempts ≡ j.attempts)
        × (((k.status ≡ pending)
              × (j.attempts < j.max_attempts)
              × (w.event ≡ text "requeued_for_retry"))
            ⊎ ((k.status ≡ failed)
                × (j.max_attempts ≤ j.attempts)
                × (w.event ≡ text "retries_exhausted"))))

-- A tick: the clock of its sweep, and the rows that other transactions hold locked.
module _ (backoff : BackoffConfig) (r : Reaper) where
  unfoldable pub sweep : Clock × (ℕ → Bool) → Db → List Warning × Db
  unfolding warnings reap_expired_leases
  sweep (c, locked) db =
      let (reaped, db') = reap_expired_leases c backoff locked r.batch db in (warnings reaped, db')

  -- The loop over the ticks until the context ends.
  unfoldable pub run_reaper : List (Clock × (ℕ → Bool)) → Db → List Warning × Db
  unfolding sweep
  run_reaper [] db = ([], db)
  run_reaper (tick ∷ ticks) db =
      let (first, db') = sweep tick db in
      let (others, db'') = run_reaper ticks db' in (first ++ others, db'')

  abbrev pub reap_call : Clock × (ℕ → Bool) → Clock × Call
  reap_call (c, locked) = (c, reaps locked r.batch)

  run_reaper-run :
      (ticks : List (Clock × (ℕ → Bool))) (db : Db)
      → (run_reaper ticks db).1 ≡ run backoff db (map reap_call ticks)
  unfolding run_reaper run sweep step
  run_reaper-run [] db = refl
  run_reaper-run ((c, locked) ∷ ticks) db =
      run_reaper-run ticks (reap_expired_leases c backoff locked r.batch db).1

  append_nil : (ws : List Warning) → ws ++ [] ≡ ws
  append_nil [] = refl
  append_nil (w ∷ ws) = ap (◌∷◌ w) (append_nil ws)

  append_assoc : (xs ys zs : List Warning) → (xs ++ ys) ++ zs ≡ xs ++ (ys ++ zs)
  append_assoc [] ys zs = refl
  append_assoc (x ∷ xs) ys zs = ap (◌∷◌ x) (append_assoc xs ys zs)

  -- One tick more.
  run_reaper-append :
      (ticks : List (Clock × (ℕ → Bool))) (tick : Clock × (ℕ → Bool)) (db : Db)
      → let before = run_reaper ticks db in
        let last = sweep tick before.1 in
        ((run_reaper (ticks ++ (tick ∷ [])) db).0 ≡ before.0 ++ last.0)
        × ((run_reaper (ticks ++ (tick ∷ [])) db).1 ≡ last.1)
  unfolding run_reaper
  run_reaper-append [] tick db = (append_nil (sweep tick db).0, refl)
  run_reaper-append (t ∷ ticks) tick db =
      let first = sweep t db in
      let (logged, left) = run_reaper-append ticks tick first.1 in
      let others = run_reaper ticks first.1 in
      (
        ap (λ ws. first.0 ++ ws) logged
            ∙ sym (append_assoc first.0 others.0 (sweep tick others.1).0),
        left,
      )

  abbrev lines_of : List Expired → List Warning
  lines_of es = map warning (map reaped_of es)

  no_line :
      (i : ℕ) (es : List Expired)
      → contains_id i es ≡ false
      → find (is_about i) (lines_of es) ≡ none
  unfolding find warning
  no_line i [] h = refl
  no_line i (e ∷ es) h =
      let other : (e.id == i) ≡ false = ground arith in rw other (no_line i es (ground arith))

  first_line :
      (j : Job) (es : List Expired)
      → All (λ e. Reads e j) es
      → contains_id j.id es ≡ true
      → find (is_about j.id) (lines_of es) ≡ some (warning (reaped_of (expired_of j)))
  unfolding find warning
  first_line j [] all h = absurd (cc h)
  first_line j (e ∷ es) all h = elim (Bool-cases (e.id == j.id)) [
    | inl y ↦ rw y (ap (λ x. some (warning (reaped_of x))) (all.0 (ground arith)))
    | inr n ↦ rw n (first_line j es all.1 (ground arith))
  ]

  recovered_line :
      (c : Clock) (j : Job)
      → IsLogged j
          (some (reap_row c backoff (expired_of j) j))
          (some (warning (reaped_of (expired_of j))))
  unfolding reap_row event_of
  recovered_line c j = elim (Bool-cases (leb j.max_attempts j.attempts)) [
    | inl y ↦ inr (_, _, refl, refl, refl, refl, inr (rw y refl, ground arith, rw y refl))
    | inr n ↦ inr (_, _, refl, refl, refl, refl, inl (rw n refl, ground arith, rw n refl))
  ]

  subst-IsLogged :
      {j : Job} {after k : Option Job} {line w : Option Warning}
      → after ≡ k
      → line ≡ w
      → IsLogged j k w
      → IsLogged j after line
  subst-IsLogged {j} {after} {k} {line} {w} e e' h =
      subst (λ x. IsLogged j x line) (sym e) (subst (λ y. IsLogged j k y) (sym e') h)

  sweep-IsLogged :
      (tick : Clock × (ℕ → Bool)) (db : Db) (j : Job)
      → Descending db.next_id db.jobs
      → find (has_id j.id) db.jobs ≡ some j
      → IsLogged j
          (find (has_id j.id) (sweep tick db).1.jobs)
          (find (is_about j.id) (sweep tick db).0)
  unfolding sweep warnings reap_expired_leases
  sweep-IsLogged (c, locked) db j d s =
      let found = expired_jobs c.now locked (batch_limit r.batch) db.jobs in
      let after = find-reap c backoff locked r.batch db j.id j d s in
      let agree =
        Reads-row c backoff found j.id db.jobs j s
          (found-Reads c.now locked (batch_limit r.batch) db.next_id db.jobs d) in
      elim (Bool-cases (contains_id j.id found)) [
        | inl y ↦
            subst-IsLogged (after ∙ rw y refl) (first_line j found agree y) (recovered_line c j)
        | inr n ↦ subst-IsLogged (after ∙ rw n refl) (no_line j.id found n) (inl (refl, refl))
      ]

  -- The reaper does nothing to the store but its sweeps, one for each tick, and logs what they do. The lines
  -- that a tick adds to those before it tell of every job of well-formed tables: either the job is as
  -- before and there is no line about it; or the sweep has recovered it, and the first line about
  -- it has its new status and its attempts, and names a retry if it is PENDING again, as a job
  -- with attempts left, or the end of its retries if it is FAILED, as one without.
  pub run_reaper_lem :
      (ticks : List (Clock × (ℕ → Bool))) (tick : Clock × (ℕ → Bool)) (db : Db) (i : ℕ) (j : Job)
      → IsWellFormed db
      → find (has_id i) (run backoff db (map reap_call ticks)).jobs ≡ some j
      → let all = run_reaper (ticks ++ (tick ∷ [])) db in
        (all.1 ≡ run backoff db (map reap_call (ticks ++ (tick ∷ []))))
        × (lines : List Warning) × (all.0 ≡ (run_reaper ticks db).0 ++ lines)
        × IsLogged j (find (has_id i) all.1.jobs) (find (is_about i) lines)
  run_reaper_lem ticks tick db i j v s =
      let (logged, left) = run_reaper-append ticks tick db in
      let before = run_reaper ticks db in
      let same = run_reaper-run ticks db in
      let wf : IsWellFormed before.1 =
        subst IsWellFormed (sym same) (run-IsWellFormed backoff db (map reap_call ticks) v) in
      let found : find (has_id i) before.1.jobs ≡ some j =
        ap (λ (x : Db). find (has_id i) x.jobs) same ∙ s in
      let here : j.id ≡ i = (==_iff j.id i).0 (find_test (has_id i) before.1.jobs {a = j} found) in
      (
        run_reaper-run (ticks ++ (tick ∷ [])) db,
        (sweep tick before.1).0,
        logged,
        subst
            (λ (x : Db).
              IsLogged j (find (has_id i) x.jobs) (find (is_about i) (sweep tick before.1).0))
            (sym left)
            (subst
              (λ n.
                IsLogged j (find (has_id n) (sweep tick before.1).1.jobs)
                  (find (is_about n) (sweep tick before.1).0))
              here
              (sweep-IsLogged tick before.1 j wf.ids
                (ap (λ n. find (has_id n) before.1.jobs) here ∙ found))),
      )
