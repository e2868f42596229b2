-- ===== src/Store/Report/Fencing.antt =====
-- Which reports count: the guard on the owner, and the replays.
use jobqueue.Common.{
  ◌==◌, if◌then◌else◌, is_some, Bool-cases, Option-cases, pos, Text, ℕ, ◌≤◌, ◌≡◌, refl, sym, subst,
  ◌∙◌, inl, inr, Bool, true, false, not, ◌&&◌, ◌||◌, none, some, List, [], ◌∷◌, arith,
}
use jobqueue.Jobs.{status_eq, Job, completed, failed, not_found, not_owned, ok, err}
use jobqueue.Store.{find, has_id, is_pending, is_running, owner_is, Db, Clock}
use jobqueue.Store.Rows.{Descending, Descending-find_lt}
use jobqueue.Store.Report.{complete_row, fail_row, complete, fail_write, fail, Report, fits_integer}
use jobqueue.Store.Report.Outcome.{
  reported, complete_held, complete_lost, fail_write_held, fail_write_lost, replay_missing,
  replay_found,
}
use jobqueue.Jobs.Backoff.{delay, BackoffConfig}

pub find_guarded_none :
    (i : ℕ) (g : Job → Bool) (js : List Job)
    → find (has_id i) js ≡ none
    → find (λ k. k.id == i && g k) js ≡ none
unfolding find
find_guarded_none i g [] s = refl
find_guarded_none i g (k ∷ js) s = ground (arith, find_guarded_none i g js)

find_id_none : (n i : ℕ) (js : List Job) → Descending n js → n ≤ i → find (has_id i) js ≡ none
find_id_none n i js d h = elim (Option-cases (find (has_id i) js)) [
  | inl e ↦ e
  | inr (j, e) ↦ absurd (omega (arith, Descending-find_lt n i js {j = j} d e))
]

guarded_head :
    (i : ℕ) (g : Job → Bool) (k : Job) (js : List Job)
    → Descending k.id js
    → (k.id == i) ≡ true
    → find (λ k. k.id == i && g k) (k ∷ js) ≡ (if g k then some k else none)
unfolding find
guarded_head i g k js d y =
    ground (arith, find_guarded_none i g js (find_id_none k.id i js d (ground arith)))

guarded_tail :
    (i : ℕ) (g : Job → Bool) (k : Job) (js : List Job)
    → (k.id == i) ≡ false
    → (find (has_id i) (k ∷ js) ≡ find (has_id i) js)
      × (find (λ k. k.id == i && g k) (k ∷ js) ≡ find (λ k. k.id == i && g k) js)
unfolding find
guarded_tail i g k js m = (rw m, rw m)

-- A guard behind the primary key looks at the one row of the id.
pub find_guarded :
    (n i : ℕ) (g : Job → Bool) (js : List Job) (j : Job)
    → Descending n js
    → find (has_id i) js ≡ some j
    → find (λ k. k.id == i && g k) js ≡ (if g j then some j else none)
find_guarded n i g [] j d s = absurd (unfold find in cc s)
find_guarded n i g (k ∷ js) j d s = elim (Bool-cases (k.id == i)) [
  | inl y ↦
      let same : k ≡ j = unfold find in ground arith in
      subst (λ (x : Job). find (λ k. k.id == i && g k) (k ∷ js) ≡ (if g x then some x else none))
        same (guarded_head i g k js d.1 y)
  | inr m ↦
      let (same, guarded) = guarded_tail i g k js m in
      guarded ∙ find_guarded k.id i g js j d.1 (sym same ∙ s)
]

-- RUNNING under this worker.
abbrev pub is_holder : Text → Job → Bool
is_holder w j = is_running j.status && owner_is w j.worker_id

module _ (c : Clock) (i : ℕ) (w : Text) (res : Report) (backoff : BackoffConfig) (db : Db) where
  pub fail_missing :
      find (has_id i) db.jobs ≡ none → fail c backoff i w res db ≡ (err not_found, db)
  unfolding fail
  fail_missing e = ground arith

  pub fail_found :
      (j : Job)
      → find (has_id i) db.jobs ≡ some j
      → fail c backoff i w res db ≡ fail_write c backoff j.attempts i w res db
  unfolding fail
  fail_found j e = ground arith

-- The answers to a report whose exit code is an INTEGER.
module _ (c : Clock) (i : ℕ) (w : Text) (res : Report)
    (fits : fits_integer res.exit_code ≡ true) where
  pub complete_answer :
      (db : Db) (j : Job)
      → Descending db.next_id db.jobs
      → find (has_id i) db.jobs ≡ some j
      → complete c i w res db ≡ (
          if is_holder w j
          then (ok (complete_row c w res j), reported c i w (complete_row c w res) db)
          else if status_eq j.status completed && owner_is w j.worker_id
          then (ok j, db)
          else (err not_owned, db))
  complete_answer db j d s =
      let g = find_guarded db.next_id i (is_holder w) db.jobs j d s in
      elim (Bool-cases (is_holder w j)) [
        | inl y ↦ rw y (complete_held c i w res db j fits (rw y at g))
        | inr n ↦ rw n (
            complete_lost c i w res db fits (rw n at g)
            ∙ replay_found i w completed db j s
            ∙ ground arith)
      ]

  pub complete_missing :
      (db : Db) → find (has_id i) db.jobs ≡ none → complete c i w res db ≡ (err not_found, db)
  complete_missing db e =
      complete_lost c i w res db fits (find_guarded_none i (is_holder w) db.jobs e)
      ∙ replay_missing i w completed db e

  pub fail_answer :
      (backoff : BackoffConfig) (db : Db) (j : Job)
      → Descending db.next_id db.jobs
      → find (has_id i) db.jobs ≡ some j
      → fail c backoff i w res db ≡ (
          let row = fail_row c (delay backoff (pos j.attempts)) w res in
          if is_holder w j
          then (ok (row j), reported c i w row db)
          else if (status_eq j.status failed && owner_is w j.worker_id)
              || (is_pending j.status && not (is_some j.worker_id))
          then (ok j, db)
          else (err not_owned, db))
  fail_answer backoff db j d s =
      let g = find_guarded db.next_id i (is_holder w) db.jobs j d s in
      fail_found c i w res backoff db j s ∙ elim (Bool-cases (is_holder w j)) [
        | inl y ↦ rw y (fail_write_held c i w res db backoff j.attempts j fits (rw y at g))
        | inr n ↦ rw n (
            fail_write_lost c i w res db backoff j.attempts fits (rw n at g)
            ∙ replay_found i w failed db j s
            ∙ ground arith)
      ]
