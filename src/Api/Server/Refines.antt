-- ===== src/Api/Server/Refines.antt =====
-- The requests of internal/api/server.go as calls of the store.
use jobqueue.Common.{
  ltb, Bool-cases, Option-cases, Sum-cases, length, Text, trim_space, ℕ, ◌<◌, ◌≡◌, refl, ◌⊎◌, inl,
  inr, Bool, ◌||◌, [], arith,
}
use jobqueue.Jobs.{Worker, StoreError, Result, ok, err}
use jobqueue.Jobs.Backoff.{BackoffConfig}
use jobqueue.Store.{find, has_id, Db, Clock}
use jobqueue.Store.Claim.{claim}
use jobqueue.Store.Report.{renew_lease, complete, fail_write, fail, cancel, Report}
use jobqueue.Store.Machine.{
  step, Call, creates, claims, renews, completes, fails, cancels, registers, beats,
}
use jobqueue.Api.{Handler, reply_with, ServerConfig, Reply}
use jobqueue.Api.Requests.{decode, path_id, clamp_lease, Decoded}
use jobqueue.Api.Jobs.{
  job_reply, attempts_or_default, handle_create_job, list_page, handle_list_jobs, handle_get_job,
  handle_cancel, handle_stats, CreateRequest, ListQuery,
}
use jobqueue.Jobs.Validate.{is_empty, validate_new, validate_new_iff}
use jobqueue.Store.Reads.{create, get}
use jobqueue.Store.Report.Fencing.{fail_missing, fail_found}
use jobqueue.Store.Fleet.{register_worker, heartbeat}
use jobqueue.Api.Reports.{
  handle_claim, parse_report, with_report, result_of, handle_complete, error_or_default,
  handle_fail, handle_renew_lease, ClaimRequest, ReportRequest,
}
use jobqueue.Api.Workers.{
  worker_reply, handle_register_worker, heartbeat_reply, handle_heartbeat, handle_list_workers,
  RegisterRequest,
}
use jobqueue.Api.Server.{
  serve, Request, health, workers, create_job, list_jobs, claim_job, get_job, cancel_job,
  complete_job, fail_job, renew_job, register, beat, stats,
}
use jobqueue.Api.Server.Atomic.{
  Atomic, claim-Atomic, complete-Atomic, fail_write-Atomic, renew_lease-Atomic, cancel-Atomic,
  register_worker-Atomic, heartbeat-Atomic, create-Atomic,
}

-- Nothing, or exactly one call of the store, answered by a success.
pub data Effect (backoff : BackoffConfig) (db : Db) (r : Reply × Db) : Type 0 where
  unchanged : r.1 ≡ db → Effect backoff db r
  called : (s : Clock × Call) → r.1 ≡ step backoff db s → r.0.status < 300 → Effect backoff db r

module _ (backoff : BackoffConfig) where
  -- A store call whose errors change nothing, replied to.
  reply_with-Effect :
      {A : Type 0} (f : A → Reply)
      → ((a : A) → (f a).status < 300)
      → (db : Db) (r : Result A × Db) (s : Clock × Call) → Atomic db r
      → r.1 ≡ step backoff db s
      → Effect backoff db (reply_with f r)
  reply_with-Effect f good db (ok a, db') s h e = called s e (good a)
  reply_with-Effect f good db (err x, db') s h e = unchanged h

  handle_cancel-Effect :
      (c : Clock) (raw : Text) (db : Db) → Effect backoff db (handle_cancel c raw db)
  unfolding handle_cancel
  handle_cancel-Effect c raw db = elim (Option-cases (path_id raw)) [
    | inl e ↦ rw (e, handle_cancel) (unchanged refl)
    | inr (i, e) ↦
        rw (e, handle_cancel)
          (reply_with-Effect (job_reply 200) (λ j. omega arith) db (cancel c i db) (c, cancels i)
            (cancel-Atomic c i db) (unfold step in refl))
  ]

  handle_claim-Effect :
      (cfg : ServerConfig) (c : Clock) (locked : ℕ → Bool) (body : Decoded ClaimRequest) (db : Db)
      → Effect backoff db (handle_claim cfg c locked body db)
  unfolding handle_claim
  handle_claim-Effect cfg c locked body db = elim (Sum-cases (decode body)) [
    | inl (msg, e) ↦ rw (e, handle_claim) (unchanged refl)
    | inr (req, e) ↦ elim (Bool-cases (is_empty (trim_space req.worker_id))) [
      | inl y ↦ rw (e, handle_claim) (rw y (unchanged refl))
      | inr n ↦
          let lease = clamp_lease cfg req.lease_seconds in
          let w = trim_space req.worker_id in
          rw (e, handle_claim)
            (rw n (
              reply_with-Effect (job_reply 200) (λ j. omega arith) db (claim c locked w lease db)
                (c, claims locked w lease) (claim-Atomic c locked w lease db)
                (unfold step in refl)))
    ]
  ]

  -- The three reports: a refusal, or the call of the store that the handler makes.
  with_report-Effect :
      (db : Db) (parsed : Reply ⊎ (ℕ × ReportRequest)) (f : ℕ → ReportRequest → Handler)
      → ((i : ℕ) (req : ReportRequest) → Effect backoff db (f i req db))
      → Effect backoff db (with_report parsed f db)
  with_report-Effect db (inl reply) f h = unchanged refl
  with_report-Effect db (inr (i, req)) f h = h i req

  handle_complete-Effect :
      (c : Clock) (raw : Text) (body : Decoded ReportRequest) (db : Db)
      → Effect backoff db (handle_complete c raw body db)
  unfolding handle_complete
  handle_complete-Effect c raw body db = with_report-Effect db (parse_report raw body) _ λ i req.
      let res = result_of req [] in
      reply_with-Effect (job_reply 200) (λ j. omega arith) db (complete c i req.worker_id res db)
        (c, completes i req.worker_id res) (complete-Atomic c i req.worker_id res db)
        (unfold step in refl)

  handle_renew_lease-Effect :
      (cfg : ServerConfig) (c : Clock) (raw : Text) (body : Decoded ReportRequest) (db : Db)
      → Effect backoff db (handle_renew_lease cfg c raw body db)
  unfolding handle_renew_lease
  handle_renew_lease-Effect cfg c raw body db =
      with_report-Effect db (parse_report raw body) _ λ i req.
        let lease = clamp_lease cfg req.lease_seconds in
        reply_with-Effect (job_reply 200) (λ j. omega arith) db
          (renew_lease c i req.worker_id lease db) (c, renews i req.worker_id lease)
          (renew_lease-Atomic c i req.worker_id lease db) (unfold step in refl)

  -- `Fail` is the write with the attempts that it read, or not_found.
  fail-Effect :
      (c : Clock) (i : ℕ) (w : Text) (res : Report) (db : Db)
      → Effect backoff db (reply_with (job_reply 200) (fail c backoff i w res db))
  fail-Effect c i w res db = elim (Option-cases (find (has_id i) db.jobs)) [
    | inl e ↦ rw (fail_missing c i w res backoff db e) (unchanged refl)
    | inr (j, e) ↦ rw (fail_found c i w res backoff db j e) (
        reply_with-Effect (job_reply 200) (λ j. omega arith) db
          (fail_write c backoff j.attempts i w res db) (c, fails j.attempts i w res)
          (fail_write-Atomic c backoff j.attempts i w res db) (unfold step in refl))
  ]

  handle_fail-Effect :
      (c : Clock) (raw : Text) (body : Decoded ReportRequest) (db : Db)
      → Effect backoff db (handle_fail c backoff raw body db)
  unfolding handle_fail
  handle_fail-Effect c raw body db =
      with_report-Effect db (parse_report raw body) _
        λ i req. fail-Effect c i req.worker_id (result_of req (error_or_default req.error)) db

  handle_register_worker-Effect :
      (c : Clock) (body : Decoded RegisterRequest) (db : Db)
      → Effect backoff db (handle_register_worker c body db)
  unfolding handle_register_worker
  handle_register_worker-Effect c body db = elim (Sum-cases (decode body)) [
    | inl (msg, e) ↦ rw (e, handle_register_worker) (unchanged refl)
    | inr (req, e) ↦
        let w = trim_space req.worker_id in
        elim (Bool-cases (is_empty w || ltb 128 (length w))) [
          | inl y ↦ rw (e, handle_register_worker) (rw y (unchanged refl))
          | inr n ↦
              rw (e, handle_register_worker)
                (rw n (
                  reply_with-Effect (worker_reply 201) (λ j. omega arith) db
                    (register_worker c w req.hostname db) (c, registers w req.hostname)
                    (register_worker-Atomic c w req.hostname db) (unfold step in refl)))
        ]
  ]

  heartbeat_reply-Effect :
      (db : Db) (r : Result Worker × Db) (s : Clock × Call)
      → Atomic db r
      → r.1 ≡ step backoff db s
      → Effect backoff db (heartbeat_reply r)
  heartbeat_reply-Effect db (ok a, db') s h e = called s e (omega arith)
  heartbeat_reply-Effect db (err StoreError.not_found, db') s h e = unchanged h
  heartbeat_reply-Effect db (err _, db') s h e = unchanged h

  handle_heartbeat-Effect :
      (c : Clock) (raw : Text) (db : Db) → Effect backoff db (handle_heartbeat c raw db)
  unfolding handle_heartbeat
  handle_heartbeat-Effect c raw db = elim (Bool-cases (is_empty (trim_space raw))) [
    | inl y ↦ rw (y, handle_heartbeat) (unchanged refl)
    | inr n ↦
        rw (n, handle_heartbeat)
          (heartbeat_reply-Effect db (heartbeat c (trim_space raw) db) (c, beats (trim_space raw))
            (heartbeat-Atomic c (trim_space raw) db) (unfold step in refl))
  ]

  handle_create_job-Effect :
      (c : Clock) (body : Decoded CreateRequest) (db : Db)
      → Effect backoff db (handle_create_job c body db)
  unfolding handle_create_job
  handle_create_job-Effect c body db = elim (Sum-cases (decode body)) [
    | inl (msg, e) ↦ rw (e, handle_create_job) (unchanged refl)
    | inr (req, e) ↦
        let n = attempts_or_default req.max_attempts in
        let type = trim_space req.type in
        elim (Option-cases (validate_new type req.payload n)) [
          | inl v ↦
              let (_, _, _, lo, hi) = (validate_new_iff type req.payload n).0 v in
              rw (e, handle_create_job)
                (rw v (
                  reply_with-Effect (job_reply 201) (λ j. omega arith) db
                    (create c type req.payload n db) (c, creates type req.payload n)
                    (create-Atomic c type req.payload n db lo hi) (unfold step in refl)))
          | inr (x, v) ↦ rw (e, handle_create_job) (rw v (unchanged refl))
        ]
  ]

  list_page-db : (status : Text) (q : ListQuery) (db : Db) → (list_page status q db).1 ≡ db
  unfolding list_page
  list_page-db status q db = ground arith

  handle_get_job-Effect : (raw : Text) (db : Db) → Effect backoff db (handle_get_job raw db)
  unfolding handle_get_job get
  handle_get_job-Effect raw db = elim (Option-cases (path_id raw)) [
    | inl e ↦ rw (e, handle_get_job) (unchanged refl)
    | inr (i, e) ↦ elim (Option-cases (find (has_id i) db.jobs)) [
      | inl n ↦ rw (e, handle_get_job) (rw (n, get) (unchanged refl))
      | inr (j, n) ↦ rw (e, handle_get_job) (rw (n, get) (unchanged refl))
    ]
  ]

  handle_list_jobs-db : (q : ListQuery) (db : Db) → (handle_list_jobs q db).1 ≡ db
  unfolding handle_list_jobs
  handle_list_jobs-db q db = grind (arith, list_page-db)

module _ (cfg : ServerConfig) (backoff : BackoffConfig) where
  -- Whatever a client sends, a request leaves the database as it was, or its effect is exactly that
  -- of one call of the store and it is answered with a success: no error reply, validation failure
  -- or conflict hides a change, and no request makes two.
  pub serve-Effect :
      (c : Clock) (locked : ℕ → Bool) (request : Request) (db : Db)
      → Effect backoff db (serve cfg backoff c locked request db)
  unfolding serve
  serve-Effect c locked health db = unchanged refl
  serve-Effect c locked stats db = unchanged (unfold handle_stats in refl)
  serve-Effect c locked workers db = unchanged (unfold handle_list_workers in refl)
  serve-Effect c locked (create_job body) db = handle_create_job-Effect backoff c body db
  serve-Effect c locked (list_jobs q) db = unchanged (handle_list_jobs-db backoff q db)
  serve-Effect c locked (claim_job body) db = handle_claim-Effect backoff cfg c locked body db
  serve-Effect c locked (get_job raw) db = handle_get_job-Effect backoff raw db
  serve-Effect c locked (cancel_job raw) db = handle_cancel-Effect backoff c raw db
  serve-Effect c locked (complete_job raw body) db = handle_complete-Effect backoff c raw body db
  serve-Effect c locked (fail_job raw body) db = handle_fail-Effect backoff c raw body db
  serve-Effect c locked (renew_job raw body) db =
      handle_renew_lease-Effect backoff cfg c raw body db
  serve-Effect c locked (register body) db = handle_register_worker-Effect backoff c body db
  serve-Effect c locked (beat raw) db = handle_heartbeat-Effect backoff c raw db
