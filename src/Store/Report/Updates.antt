-- ===== src/Store/Report/Updates.antt =====
-- What a report, a renewal and a cancellation do to the table of jobs, on every branch.
use jobqueue.Common.{
  ◌==◌, if◌then◌else◌, ◌∙◌, Bool-cases, Option-cases, ℤ, pos, Text, ℕ, ◌≡◌, refl, sym, ap, inl, inr,
  Bool, true, false, ◌&&◌, List, [], ◌∷◌,
}
use jobqueue.Jobs.{Job, completed, failed}
use jobqueue.Jobs.Backoff.{delay, BackoffConfig}
use jobqueue.Store.{find, update, is_pending, is_held, Db, Clock}
use jobqueue.Store.Rows.{update_of_none}
use jobqueue.Store.Report.{
  renew_row, renew_lease, complete_row, fail_row, complete, fail_write, cancel_row, cancel, Report,
  fits_integer,
}
use jobqueue.Store.Report.Outcome.{
  reported, complete_held, complete_lost, complete_refused, fail_write_held, fail_write_lost,
  fail_write_refused, renew_held, renew_lost, replay_keeps, explain_keeps, cancel_pending,
  cancel_other, explain_cancel_keeps,
}

-- The rows that a report writes: none, if its exit code is no INTEGER.
abbrev pub is_reported : ℕ → Text → Report → Job → Bool
is_reported i w res k = fits_integer res.exit_code && is_held i w k

update_never : (f : Job → Job) (js : List Job) → update (λ k. false) f js ≡ js
unfolding update
update_never f [] = refl
update_never f (j ∷ js) = ap (◌∷◌ j) (update_never f js)

update_guarded :
    (b : Bool) (p : Job → Bool) (f : Job → Job) (js : List Job)
    → (if b then update p f js else js) ≡ update (λ k. b && p k) f js
update_guarded true p f js = refl
update_guarded false p f js = sym (update_never f js)

-- The UPDATE of each call, whether or not it matches a row.
pub complete-jobs :
    (c : Clock) (i : ℕ) (w : Text) (res : Report) (db : Db)
    → (complete c i w res db).1.jobs ≡ update (is_reported i w res) (complete_row c w res) db.jobs
complete-jobs c i w res db =
    let row = complete_row c w res in
    let fits = fits_integer res.exit_code in
    let written : (complete c i w res db).1.jobs
        ≡ (if fits then update (is_held i w) row db.jobs else db.jobs) =
      elim (Bool-cases (fits_integer res.exit_code)) [
        | inl f ↦ elim (Option-cases (find (is_held i w) db.jobs)) [
          | inl e ↦
              rw (complete_lost c i w res db f e, replay_keeps i w completed db)
                (rw f (sym (update_of_none (is_held i w) row db.jobs e)))
          | inr (j, e) ↦ rw (complete_held c i w res db j f e) (rw f (unfold reported in refl))
        ]
        | inr f ↦ rw (complete_refused c i w res db f) (rw f refl)
      ] in
    written ∙ update_guarded fits (is_held i w) row db.jobs

pub fail_write-jobs :
    (c : Clock) (backoff : BackoffConfig) (attempts i : ℕ) (w : Text) (res : Report) (db : Db)
    → (fail_write c backoff attempts i w res db).1.jobs
      ≡ update (is_reported i w res) (fail_row c (delay backoff (pos attempts)) w res) db.jobs
fail_write-jobs c backoff attempts i w res db =
    let row = fail_row c (delay backoff (pos attempts)) w res in
    let fits = fits_integer res.exit_code in
    let written : (fail_write c backoff attempts i w res db).1.jobs
        ≡ (if fits then update (is_held i w) row db.jobs else db.jobs) =
      elim (Bool-cases (fits_integer res.exit_code)) [
        | inl f ↦ elim (Option-cases (find (is_held i w) db.jobs)) [
          | inl e ↦
              rw (fail_write_lost c i w res db backoff attempts f e, replay_keeps i w failed db)
                (rw f (sym (update_of_none (is_held i w) row db.jobs e)))
          | inr (j, e) ↦
              rw (fail_write_held c i w res db backoff attempts j f e)
                (rw f (unfold reported in refl))
        ]
        | inr f ↦ rw (fail_write_refused c i w res db backoff attempts f) (rw f refl)
      ] in
    written ∙ update_guarded fits (is_held i w) row db.jobs

pub renew_lease-jobs :
    (c : Clock) (i : ℕ) (w : Text) (lease : ℤ) (db : Db)
    → (renew_lease c i w lease db).1.jobs ≡ update (is_held i w) (renew_row c lease) db.jobs
renew_lease-jobs c i w lease db = elim (Option-cases (find (is_held i w) db.jobs)) [
  | inl e ↦
      rw (renew_lost c i w lease db e, explain_keeps i db)
        (sym (update_of_none (is_held i w) (renew_row c lease) db.jobs e))
  | inr (j, e) ↦ rw (renew_held c i w lease db j e) refl
]

pub cancel-jobs :
    (c : Clock) (i : ℕ) (db : Db)
    → (cancel c i db).1.jobs ≡ update (λ k. k.id == i && is_pending k.status) (cancel_row c) db.jobs
cancel-jobs c i db = elim (Option-cases (find (λ k. k.id == i && is_pending k.status) db.jobs)) [
  | inl e ↦
      rw (cancel_other c i db e, explain_cancel_keeps i db)
        (sym (update_of_none (λ k. k.id == i && is_pending k.status) (cancel_row c) db.jobs e))
  | inr (j, e) ↦ rw (cancel_pending c i db j e) refl
]
