-- ===== src/Bench/Cleanup.antt =====
-- cmd/queue-bench/claim.go: `cleanup` and `cancelPending`, against the server.
pub mod Cancels
pub mod Pages
use jobqueue.Common.{
  length, pos, Text, text, print_nat, ℕ, zero, suc, ◌+◌, ◌⊎◌, inl, inr, true, false, Option, none,
  some, List, [], ◌∷◌, map,
}
use jobqueue.Jobs.Backoff.{BackoffConfig}
use jobqueue.Store.{Db, Clock}
use jobqueue.Api.{Message, Body, Reply, jobs_body}
use jobqueue.Api.Requests.{Decoded}
use jobqueue.Api.Jobs.{handle_list_jobs, handle_cancel, ListQuery}
use jobqueue.Api.Reports.{handle_fail, ReportRequest}
use jobqueue.Bench.Http.{do_call, arrives_as, arrives, BenchError}
use jobqueue.Bench.Tally.{ClaimRecord}
use jobqueue.Bench.Run.{error_of_answer, first_error, and_then, checked}

-- The query of a page of PENDING jobs.
unfoldable pub pending_query : ListQuery
pending_query = record { status = text "pending"; limit = text "500"; offset = [] }

abbrev pub ids_of : Body → List ℕ
ids_of (jobs_body js n) = map (λ j. j.id) js
ids_of _ = []

-- The ids of a page, or the error.
unfoldable pub page_of : (Message → Text) → Reply → BenchError ⊎ List ℕ
unfolding do_call arrives_as
page_of render reply = do_call (arrives_as render ids_of reply)

-- How the cleaning ends, or that it goes on.
pub data Cleaning : Type 0 where
  cleaned cleaning : Cleaning
  stopped : BenchError → Cleaning

abbrev pub cleaning_after : (BenchError ⊎ Unit {0}) × Db → (Db → Cleaning × Db) → Cleaning × Db
cleaning_after (inl e, db) next = (stopped e, db)
cleaning_after (inr _, db) next = next db

-- The body that fails a claimed job.
unfoldable pub fail_body : Text → Decoded ReportRequest
fail_body worker = record {
  first = inr (record {
    worker_id = worker;
    stdout = [];
    stderr = [];
    exit_code = none;
    duration_ms = none;
    error = text "queue-bench cleanup";
    lease_seconds = record { not_positive = true; duration = pos 0 };
  });
  more = false;
}

module _ (render : Message → Text) (backoff : BackoffConfig) (clock : ℕ → Clock) where
  -- Every claimed job is failed by its claimer; the first error is kept.
  unfoldable pub fail_claimed : List ClaimRecord → ℕ → Db → Option BenchError × Db
  unfolding handle_fail fail_body error_of_answer arrives print_nat
  fail_claimed [] k db = (none, db)
  fail_claimed (r ∷ rs) k db =
      let (reply, db1) =
        handle_fail (clock k) backoff (print_nat r.job_id) (fail_body r.worker) db in
      let (later, db2) = fail_claimed rs (k + 1) db1 in
      (first_error (error_of_answer (arrives render reply)) later, db2)

  -- The inner loop; the first error ends it.
  unfoldable pub cancel_each : List ℕ → ℕ → Db → (BenchError ⊎ Unit {0}) × Db
  unfolding handle_cancel checked print_nat
  cancel_each [] k db = (inr tt, db)
  cancel_each (i ∷ is) k db =
      and_then (checked render (handle_cancel (clock k) (print_nat i) db))
        λ _ db1. cancel_each is (k + 1) db1

  -- The outer loop, with `fuel` the number of pages looked at and `k` that of the requests before.
  unfoldable pub cancel_from : ℕ → ℕ → Db → Cleaning × Db
  unfolding cancel_each handle_list_jobs pending_query page_of
  cancel_from zero k db = (cleaning, db)
  cancel_from (suc fuel) k db = elim (page_of render (handle_list_jobs pending_query db).0) [
    | inl e ↦ (stopped e, db)
    | inr ids ↦ elim ids [
      | [] ↦ (cleaned, db)
      | i ∷ is ↦
          cleaning_after (cancel_each (i ∷ is) k db)
            λ db1. cancel_from fuel (k + length (i ∷ is)) db1
    ]
  ]

  abbrev pub cancel_pending : ℕ → Db → Cleaning × Db
  unfolding cancel_from
  cancel_pending fuel db = cancel_from fuel 0 db

  -- The failures, and then the cancellations; a failure that went wrong ends the cleanup behind them.
  unfoldable pub cleanup : List ClaimRecord → ℕ → Db → Cleaning × Db
  unfolding fail_claimed cancel_pending
  cleanup rs fuel db =
      let (bad, db1) = fail_claimed rs 0 db in
      elim bad [ some e ↦ (stopped e, db1) | none ↦ cancel_pending fuel db1 ]
