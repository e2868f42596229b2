-- ===== src/Worker/Exactly.antt =====
-- internal/worker/worker.go and internal/jobs/store.go: a completion reported over a network that loses
-- requests and answers.
use jobqueue.Common.{
  Text, text, ℕ, ◌≡◌, refl, sym, ap, subst, ◌∙◌, ◌≢◌, ◌⊎◌, inl, inr, Bool, Option, none, some, [],
}
use jobqueue.Jobs.{Job, Result, ok, err}
use jobqueue.Store.{Db, Clock}
use jobqueue.Store.Rows.{Descending}
use jobqueue.Store.Report.{complete, Report}
use jobqueue.Worker.Client.{taken_for, ClientError, transport}
use jobqueue.Worker.Delivery.{report, report_keeps, delivered}
use jobqueue.Store.Report.Repeat.{complete_fits, complete_twice}
use jobqueue.Api.Server.Atomic.{Atomic, complete-Atomic}

-- What the network does with an attempt.
pub data Fate : Type 0 where
  request_lost answer_lost arrived : Fate

-- An attempt: the server's clock, and what the network does.
pub record Attempt : Type 0 where
  pub clock : Clock
  pub fate : Fate

abbrev lost : ClientError
lost = transport (text "connection lost")

-- The error that the worker sees of a store's answer.
abbrev seen_of : {A : Type 0} → Result A → Option ClientError
seen_of (ok a) = none
seen_of (err e) = some (taken_for e [])

-- The error that the worker gets, and the database, of the answer to one attempt.
abbrev through : Fate → Db → Result Job × Db → Option ClientError × Db
through request_lost db r = (some lost, db)
through answer_lost db r = (some lost, r.1)
through arrived db r = (seen_of r.0, r.1)

-- `Complete` of the client, the network and the store.
unfoldable pub send_complete : (ℕ → Attempt) → ℕ → Text → Report → ℕ → Db → Option ClientError × Db
unfolding complete taken_for
send_complete attempts i w res k db =
    through (attempts k).fate db (complete (attempts k).clock i w res db)

-- The database behind one completion at some attempt.
pub record Completed (attempts : ℕ → Attempt) (i : ℕ) (w : Text) (res : Report) (db db' : Db)
    : Type 0 where
  pub attempt : ℕ
  pub job : Job
  pub done : complete (attempts attempt).clock i w res db ≡ (ok job, db')

answer-cases :
    (s : Db) (r : Result Job × Db)
    → Atomic s r
    → ((r.1 ≡ s) × ((j : Job) → r.0 ≢ ok j)) ⊎ ((j : Job) × (r ≡ (ok j, r.1)))
answer-cases s (ok j, s') h = inr (j, refl)
answer-cases s (err e, s') h = inl (h, λ j k. absurd (cc k))

-- What the worker sees of an attempt that succeeded.
seen_none : (r : Result Job) → seen_of r ≡ none → (j : Job) × (r ≡ ok j)
seen_none (ok j) h = (j, refl)
seen_none (err e) h = absurd (cc h)

module _ (attempts : ℕ → Attempt) (i : ℕ) (w : Text) (res : Report) (db : Db) where
  abbrev Reached : Db → Type 0
  Reached s = (s ≡ db) ⊎ Completed attempts i w res db s

  complete-Reached :
      Descending db.next_id db.jobs
      → (k : ℕ) (s : Db) → Reached s
      → let r = complete (attempts k).clock i w res s in
        Reached r.1 × ((j : Job) → r.0 ≡ ok j → Completed attempts i w res db r.1)
  complete-Reached d k s (inl e) =
      let c = (attempts k).clock in
      elim (answer-cases s (complete c i w res s) (complete-Atomic c i w res s)) [
        | inl (h, none_ok) ↦ (inl (h ∙ e), λ j y. absurd (none_ok j y))
        | inr (j, h) ↦
            let made : Completed attempts i w res db (complete c i w res s).1 = record {
              attempt = k;
              job = j;
              done = ap (λ x. complete c i w res x) (sym e) ∙ h;
            } in
            (inr made, λ _ _. made)
      ]
  complete-Reached d k s (inr made) =
      let c = (attempts k).clock in
      let same =
        complete_twice (attempts made.attempt).clock c i w res res db s made.job d
          (complete_fits (attempts made.attempt).clock i w res db s made.job made.done) made.done in
      let kept : Completed attempts i w res db (complete c i w res s).1 =
        subst (λ x. Completed attempts i w res db x) (sym (ap (λ r. r.1) same)) made in
      (inr kept, λ _ _. kept)

  sent :
      (fate : Fate) (s : Db) (r : Result Job × Db)
      → Reached s
      → Reached r.1
      → ((j : Job) → r.0 ≡ ok j → Completed attempts i w res db r.1)
      → Reached (through fate s r).1
        × ((through fate s r).0 ≡ none → Completed attempts i w res db (through fate s r).1)
  sent request_lost s r before after made = (before, λ h. absurd (cc h))
  sent answer_lost s r before after made = (after, λ h. absurd (cc h))
  sent arrived s r before after made = (after, λ h. let (j, e) = seen_none r.0 h in made j e)

  send-Reached :
      Descending db.next_id db.jobs
      → (k : ℕ) (s : Db) → Reached s
      → let r = send_complete attempts i w res k s in
        Reached r.1 × (r.0 ≡ none → Completed attempts i w res db r.1)
  unfolding send_complete
  send-Reached d k s reached =
      let (kept, made) = complete-Reached d k s reached in
      sent (attempts k).fate s (complete (attempts k).clock i w res s) reached kept made

  -- Whatever requests and answers the network loses in the attempts of `report`, and whenever they
  -- reach the server, the job is completed at most once: the database is as before, or as one single
  -- completion leaves it; and it is the latter whenever the worker is told of a success.
  pub report_complete_once :
      (ended : ℕ → Bool)
      → Descending db.next_id db.jobs
      → let r = report (send_complete attempts i w res) ended db in
        ((r.1 ≡ db) ⊎ Completed attempts i w res db r.1)
        × (r.0 ≡ delivered → Completed attempts i w res db r.1)
  unfolding report
  report_complete_once ended d =
      report_keeps (send_complete attempts i w res) ended Reached (Completed attempts i w res db)
        (λ k s p. (send-Reached d k s p).0) (λ k s p. (send-Reached d k s p).1) 4 1 db (inl refl)
