-- ===== src/Bench/Run/Joined.antt =====
-- What the registration of the claimers does.
use jobqueue.Common.{
  ltb, is_some, Option-cases, length, All, Text, text, text_eq_refl, trim_space, ◌≤◌, ◌≡◌, refl,
  sym, ap, subst, ◌∙◌, ◌⊎◌, inl, inr, true, false, some, List, [], ◌∷◌, map, arith,
}
use jobqueue.Jobs.{WorkerRow, Worker, ok}
use jobqueue.Jobs.Validate.{is_empty}
use jobqueue.Store.{find, is_worker, Db, Clock}
use jobqueue.Store.Fleet.{new_worker, register_row, register_worker}
use jobqueue.Store.Invariant.Staff.{Grows, cons-Grows, update-Grows}
use jobqueue.Api.{reply_with, ServerConfig, Message}
use jobqueue.Api.Requests.{decode}
use jobqueue.Api.Workers.{worker_reply, handle_register_worker}
use jobqueue.Bench.Race.Turns.{IsFit}
use jobqueue.Bench.Run.{claimer_body, error_of_answer, and_then, checked, register_claimers}
use jobqueue.Bench.Http.{do_call, arrives, BenchError}
use jobqueue.Bench.Claimer.{claimer, Claimer}
use jobqueue.Bench.Race.Verdict.{IsSane}

-- A name that the registration takes as it is.
abbrev pub IsName : Text → Type 0
IsName w = (trim_space w ≡ w) × (is_empty w ≡ false) × (length w ≤ 128)

-- The table of jobs is as before, and the workers are there and stay.
pub record IsJoined (db db' : Db) : Type 0 where
  pub jobs : db'.jobs ≡ db.jobs
  pub next : db'.next_id ≡ db.next_id
  pub fleet : Grows db.workers db'.workers

grown-IsFit : (ws ws' : List WorkerRow) (w : Text) → Grows ws ws' → IsFit ws w → IsFit ws' w
grown-IsFit ws ws' w grows h = record {
  trimmed = h.trimmed;
  named = h.named;
  registered = grows (some w) h.registered;
}

register_worker-IsJoined :
    (c : Clock) (w hostname : Text) (db : Db)
    → let r = register_worker c w hostname db in
      ((v : Worker) × (r.0 ≡ ok v))
      × IsJoined db r.1
      × (is_some (find (is_worker w) r.1.workers) ≡ true)
unfolding register_worker
register_worker-IsJoined c w hostname db = elim (Option-cases (find (is_worker w) db.workers)) [
  | inl e ↦
      rw (e, register_worker)
        (
          (record { row = new_worker c w hostname; alive = true }, refl),
          record {
            jobs = refl;
            next = refl;
            fleet = cons-Grows (new_worker c w hostname) db.workers;
          },
          unfold find new_worker in ground (arith, text_eq_refl w),
        )
  | inr (r, e) ↦
      let grows =
        update-Grows (is_worker w) (register_row c hostname) (λ r. unfold register_row in refl)
          db.workers in
      rw (e, register_worker)
        (
          (record { row = register_row c hostname r; alive = true }, refl),
          record { jobs = refl; next = refl; fleet = grows },
          grows (some w) (rw e refl),
        )
]

-- The row under a name, behind its registration.
abbrev joined : Clock → Text → Db → Db
joined c w db = (register_worker c w (text "queue-bench") db).1

module _ (cfg : ServerConfig) (render : Message → Text) (payload : Text) where
  register_claimer :
      (c : Clock) (w : Text) (db : Db)
      → IsName w
      → handle_register_worker c (claimer_body w) db
        ≡ reply_with (worker_reply 201) (register_worker c w (text "queue-bench") db)
  unfolding handle_register_worker claimer_body decode
  register_claimer c w db (trimmed, named, short) =
      let fits : ltb 128 (length w) ≡ false = ground arith in
      rw (trimmed, handle_register_worker) (rw (named, fits) refl)

  -- The registration of one claimer succeeds.
  register_one :
      (c : Clock) (w : Text) (db : Db)
      → IsName w
      → (v : Worker) × (handle_register_worker c (claimer_body w) db
          ≡ (worker_reply 201 v, joined c w db))
  register_one c w db h =
      let r = register_worker c w (text "queue-bench") db in
      let ((v, e), _, _) = register_worker-IsJoined c w (text "queue-bench") db in
      let whole : r ≡ (ok v, r.1) = ap (λ x. (x, r.1)) e in
      (v, register_claimer c w db h ∙ ap (reply_with (worker_reply 201)) whole)

  abbrev pub Joined : List Text → Db → (BenchError ⊎ List Claimer) × Db → Type 0
  Joined ws db (answer, db') =
      (answer ≡ inr (map claimer ws)) × IsJoined db db' × All (IsSane db') (map claimer ws)

  with_one :
      (w : Text) (ws : List Text) (db db1 : Db) (r : (BenchError ⊎ List Claimer) × Db)
      → IsName w
      → IsJoined db db1
      → is_some (find (is_worker w) db1.workers) ≡ true
      → Joined ws db1 r
      → Joined (w ∷ ws) db (and_then r λ cls db2. (inr (claimer w ∷ cls), db2))
  unfolding claimer
  with_one w ws db db1 (inl e, db2) h j known (wrong, _, _) = absurd (cc wrong)
  with_one w ws db db1 (inr cls, db2) (trimmed, named, short) j known (e, k, all) =
      let fit : IsFit db1.workers w = record {
        trimmed = trimmed;
        named = named;
        registered = known;
      } in
      (
        cc e,
        record {
          jobs = k.jobs ∙ j.jobs;
          next = k.next ∙ j.next;
          fleet = λ o g. k.fleet o (j.fleet o g);
        },
        ((grown-IsFit db1.workers db2.workers w k.fleet fit, tt), all),
      )

  -- All claimers are registered.
  pub register_claimers-Joined :
      (c : Clock) (ws : List Text) (db : Db)
      → All IsName ws
      → Joined ws db (register_claimers cfg render payload c ws db)
  unfolding register_claimers
  register_claimers-Joined c [] db h =
      (refl, record { jobs = refl; next = refl; fleet = λ o g. g }, tt)
  register_claimers-Joined c (w ∷ ws) db h =
      let (v, e) = register_one c w db h.0 in
      let (_, j, known) = register_worker-IsJoined c w (text "queue-bench") db in
      let good : checked render (handle_register_worker c (claimer_body w) db)
          ≡ (inr tt, joined c w db) =
        ap (checked render) e ∙ unfold checked error_of_answer arrives do_call in refl in
      subst
        (λ r. Joined (w ∷ ws) db (
          and_then r λ _ db1.
            and_then (register_claimers cfg render payload c ws db1)
              λ cls db2. (inr (claimer w ∷ cls), db2)))
        (sym good)
        (with_one w ws db (joined c w db)
          (register_claimers cfg render payload c ws (joined c w db)) h.0 j known
          (register_claimers-Joined c ws (joined c w db) h.1))
