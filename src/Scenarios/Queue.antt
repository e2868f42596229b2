-- ===== src/Scenarios/Queue.antt =====
-- The theorems about the store at the queue of `jobqueue.Scenarios`.
use jobqueue.Common.{
  List, [], ◌∷◌, pos, if◌then◌else◌, is_some, length, select, text_eq, ◌+◌, ◌≤◌, ◌≡◌, refl, ◌∙◌,
  ◌⊎◌, true, false, not, ◌&&◌, ◌||◌, none, some, arith,
}
use jobqueue.Jobs.{
  status_eq, Job, running, completed, failed, canceled, not_found, not_owned, not_cancelable, ok,
  err,
}
use jobqueue.Jobs.Backoff.{default_backoff, delay}
use jobqueue.Store.{find, update, has_id, is_pending, owner_is, is_held, Clock}
use jobqueue.Store.Rows.{Descending}
use jobqueue.Store.Claim.{claim}
use jobqueue.Store.Claim.Outcome.{Promises, claim-Promises}
use jobqueue.Store.Report.{renew_row, renew_lease, complete_row, complete, fail, cancel}
use jobqueue.Store.Report.Outcome.{reported}
use jobqueue.Store.Report.Fencing.{is_holder}
use jobqueue.Store.Report.Repeat.{complete_twice, stale_reports, stranger_fails}
use jobqueue.Store.Report.Cancel.{cancel_outcome, renew_outcome}
use jobqueue.Store.Reap.{is_expired, expired_of, reap_row, reap_expired_leases}
use jobqueue.Store.Reap.Effect.{sweep_outcome}
use jobqueue.Store.Machine.{step, reaps, run, Call, claims, renews, fails}
use jobqueue.Store.Lifecycle.Lease.{IsLeased, AreHarmless, lease_lem}
use jobqueue.Store.Invariant.Staff.{AreStaffed}
use jobqueue.Store.Invariant.Staffing.{run-AreStaffed}
use jobqueue.Store.Invariant.{IsWellFormed}
use jobqueue.Store.Invariant.Runs.{step-IsWellFormed}
use jobqueue.Store.Lifecycle.Steps.{Follows, step-Follows}
use jobqueue.Store.Lifecycle.Dispatch.{
  Rising, count_of, dispatches, dispatches-Rising, dispatches_budget,
}
use jobqueue.Scenarios.{
  alice, bob, noon, evening, unlocked, waiting_job, running_job, shop, report, history,
}
use jobqueue.Common.{ℕ, leb, ◌≢◌}
use jobqueue.Jobs.{pending, database}
use jobqueue.Store.Report.{fits_integer}
use jobqueue.Store.Report.Stored.{shortened, Stores, complete_outcome, fail_outcome}
use jobqueue.Store.Report.Repeat.{refusal}
use jobqueue.Store.Report.Fencing.{complete_answer}

shop-IsWellFormed : IsWellFormed shop
shop-IsWellFormed = record { ids = omega arith; rows = (ground arith, (ground arith, tt)) }

shop_ids : Descending 3 shop.jobs
shop_ids = omega arith

shop_job1 : find (has_id 1) shop.jobs ≡ some waiting_job
unfolding find
shop_job1 = refl

shop_job2 : find (has_id 2) shop.jobs ≡ some running_job
unfolding find
shop_job2 = refl

dispatches-Rising_example : Rising (dispatches default_backoff shop history)
dispatches-Rising_example = dispatches-Rising default_backoff shop history shop-IsWellFormed

claim-Promises_example :
    Promises noon unlocked bob (pos 30) shop (claim noon unlocked bob (pos 30) shop)
claim-Promises_example = claim-Promises noon unlocked bob (pos 30) shop shop_ids

step-IsWellFormed_example :
    IsWellFormed (step default_backoff shop (noon, reaps unlocked (pos 100)))
step-IsWellFormed_example =
    step-IsWellFormed default_backoff shop (noon, reaps unlocked (pos 100)) shop-IsWellFormed

step-Follows_example : Follows shop (step default_backoff shop (noon, reaps unlocked (pos 100)))
step-Follows_example =
    step-Follows default_backoff shop (noon, reaps unlocked (pos 100)) shop-IsWellFormed

-- Alice runs job 2 until 90; at 80 she renews the lease by 30, at 100 bob claims and a sweep runs.
abbrev morning : Clock
morning = record noon { now = 80 }

abbrev busy_hour : List (Clock × Call)
busy_hour =
    (morning, renews 2 alice (pos 30_000))
    ∷ (noon, claims unlocked bob (pos 30))
    ∷ (noon, fails 1 2 bob report)
    ∷ (noon, reaps unlocked (pos 100))
    ∷ []

job2-IsLeased : IsLeased 2 alice 90 running_job
job2-IsLeased = record { same_id = refl; runs = refl; owned = refl; until = refl }

busy_hour-AreHarmless : AreHarmless 2 alice 90 busy_hour
unfolding text_eq
busy_hour-AreHarmless = (tt, (tt, (refl, (omega arith, tt))))

lease_lem_example :
    let db' = run default_backoff shop busy_hour in
    (k : Job) × (find (has_id 2) db'.jobs ≡ some k)
    × (k.status ≡ running)
    × (k.worker_id ≡ some alice)
    × (k.attempts ≡ 1)
    × ((complete noon 2 alice report db').0 ≡ ok (complete_row noon alice report k))
lease_lem_example =
    lease_lem 2 alice default_backoff busy_hour 90 running_job shop noon report shop-IsWellFormed
      shop_job2 job2-IsLeased busy_hour-AreHarmless refl

dispatches_budget_example : count_of 1 (dispatches default_backoff shop history) + 1 ≤ 3
dispatches_budget_example =
    dispatches_budget default_backoff shop history 1 waiting_job shop-IsWellFormed shop_job1

stale_reports_example :
    (complete noon 2 bob report shop ≡ (err (refusal report), shop))
    × (fail noon default_backoff 2 bob report shop ≡ (err (refusal report), shop))
    × (renew_lease noon 2 bob (pos 30) shop ≡ (err not_owned, shop))
stale_reports_example =
    stale_reports noon default_backoff 2 bob report (pos 30) shop running_job shop_ids shop_job2
      refl (unfold text_eq in refl) refl

complete_outcome_example :
    let r = complete noon 2 alice report shop in
    (fits_integer report.exit_code ≡ false → r ≡ (err database, shop))
    × (fits_integer report.exit_code ≡ true
        → find (has_id 2) shop.jobs ≡ none
        → r ≡ (err not_found, shop))
    × (fits_integer report.exit_code ≡ true
        → (j : Job) → find (has_id 2) shop.jobs ≡ some j
        → (is_holder alice j ≡ true
            → let k = record j {
              status = completed;
              worker_id = some alice;
              lease_until = none;
              updated_at = 100;
              result_stdout = some (shortened report.stdout);
              result_stderr = some (shortened report.stderr);
              result_exit_code = report.exit_code;
              duration_ms = report.duration_ms;
              last_error = none;
            } in
              Stores noon 2 alice report shop k r)
          × (is_holder alice j ≡ false
              → r ≡ (
                  if status_eq j.status completed && owner_is alice j.worker_id
                  then (ok j, shop)
                  else (err not_owned, shop))))
complete_outcome_example = complete_outcome noon 2 alice report shop shop_ids

fail_outcome_example :
    let r = fail noon default_backoff 2 alice report shop in
    (find (has_id 2) shop.jobs ≡ none → r ≡ (err not_found, shop))
    × ((j : Job)
        → find (has_id 2) shop.jobs ≡ some j
        → fits_integer report.exit_code ≡ false
        → r ≡ (err database, shop))
    × ((j : Job)
        → find (has_id 2) shop.jobs ≡ some j
        → fits_integer report.exit_code ≡ true
        → (is_holder alice j ≡ true
            → let over = leb j.max_attempts j.attempts in
              let k = record j {
                status = if over then failed else pending;
                worker_id = if over then some alice else none;
                lease_until = none;
                available_at = noon.after (delay default_backoff (pos j.attempts));
                updated_at = 100;
                last_error = some (shortened report.error);
                result_stdout = some (shortened report.stdout);
                result_stderr = some (shortened report.stderr);
                result_exit_code = report.exit_code;
                duration_ms = report.duration_ms;
              } in
              Stores noon 2 alice report shop k r)
          × (is_holder alice j ≡ false
              → r ≡ (
                  if (status_eq j.status failed && owner_is alice j.worker_id)
                    || (is_pending j.status && not (is_some j.worker_id))
                  then (ok j, shop)
                  else (err not_owned, shop))))
fail_outcome_example = fail_outcome noon 2 alice report default_backoff shop shop_ids

sweep_outcome_example :
    let after =
      find (has_id 2) (reap_expired_leases noon default_backoff unlocked (pos 100) shop).1.jobs in
    let recovered = reap_row noon default_backoff (expired_of running_job) running_job in
    (is_expired 100 unlocked running_job ≡ false → after ≡ some running_job)
    × ((after ≡ some running_job) ⊎ (after ≡ some recovered))
    × (is_expired 100 unlocked running_job ≡ true
        → length (select (is_expired 100 unlocked) shop.jobs) ≤ 100
        → after ≡ some recovered)
sweep_outcome_example =
    sweep_outcome noon default_backoff unlocked (pos 100) shop 2 running_job shop_ids shop_job2

completion : complete noon 2 alice report shop ≡ (
  ok (complete_row noon alice report running_job),
  reported noon 2 alice (complete_row noon alice report) shop,
)
completion =
    complete_answer noon 2 alice report refl shop running_job shop_ids shop_job2
    ∙ (unfold text_eq in refl)

complete_twice_example :
    complete evening 2 alice report (reported noon 2 alice (complete_row noon alice report) shop)
    ≡ (
      ok (complete_row noon alice report running_job),
      reported noon 2 alice (complete_row noon alice report) shop,
    )
complete_twice_example =
    complete_twice noon evening 2 alice report report shop
      (reported noon 2 alice (complete_row noon alice report) shop)
      (complete_row noon alice report running_job) shop_ids refl completion

cancel_outcome_example :
    let r = cancel noon 1 shop in
    (find (has_id 1) shop.jobs ≡ none → r ≡ (err not_found, shop))
    × ((j : Job)
        → find (has_id 1) shop.jobs ≡ some j
        → (is_pending j.status ≡ true
            → let k = record j { status = canceled; updated_at = 100; lease_until = none } in
              (r.0 ≡ ok k)
              × (find (has_id 1) r.1.jobs ≡ some k)
              × ((n : ℕ) → n ≢ 1 → find (has_id n) r.1.jobs ≡ find (has_id n) shop.jobs)
              × (r.1.workers ≡ shop.workers)
              × (r.1.next_id ≡ shop.next_id))
          × (is_pending j.status ≡ false
              → r ≡ (
                  if status_eq j.status canceled
                  then (ok j, shop)
                  else (err not_cancelable, shop))))
cancel_outcome_example = cancel_outcome noon 1 shop shop_ids

renew_outcome_example :
    (find (has_id 2) shop.jobs ≡ none
      → renew_lease noon 2 alice (pos 30) shop ≡ (err not_found, shop))
    × ((j : Job)
        → find (has_id 2) shop.jobs ≡ some j
        → renew_lease noon 2 alice (pos 30) shop ≡ (
            if is_holder alice j
            then (
              ok (record j { lease_until = some 100; updated_at = 100 }),
              record shop { jobs = update (is_held 2 alice) (renew_row noon (pos 30)) shop.jobs },
            )
            else (err not_owned, shop)))
renew_outcome_example = renew_outcome noon 2 alice (pos 30) shop shop_ids

stranger_fails_example : fail noon default_backoff 1 bob report shop ≡ (ok waiting_job, shop)
stranger_fails_example =
    stranger_fails noon default_backoff 1 bob report shop waiting_job shop_ids shop_job1 refl refl
      refl

shop-AreStaffed : AreStaffed shop
unfolding find text_eq
shop-AreStaffed = ((λ _. refl), ((λ h. absurd (cc h)), tt))

run-AreStaffed_example : AreStaffed (run default_backoff shop history)
run-AreStaffed_example =
    run-AreStaffed default_backoff shop history shop-AreStaffed shop-IsWellFormed
