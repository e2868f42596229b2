-- ===== src/Api/Server/Statuses.antt =====
-- The status codes of the server's answers.
use jobqueue.Common.{
  ltb, Bool-cases, Option-cases, Sum-cases, length, Text, trim_space, ℕ, ◌≡◌, refl, ◌≢◌, ◌⊎◌, inl,
  sym, ap, ◌∙◌, true, false, inr, Bool, ◌||◌, [], arith,
}
use jobqueue.Jobs.{
  Job, Worker, StoreError, Result, not_claimable, not_owned, not_cancelable, no_jobs,
  unknown_worker, database, ok, err,
}
use jobqueue.Jobs.Backoff.{BackoffConfig}
use jobqueue.Jobs.Validate.{is_empty, validate_new, validate_new_iff}
use jobqueue.Store.{Db, Clock}
use jobqueue.Store.Reads.{create_in_range, get}
use jobqueue.Store.Claim.{claim}
use jobqueue.Store.Report.{renew_lease, complete, fail, cancel, fits_integer}
use jobqueue.Store.Fleet.{register_worker, heartbeat}
use jobqueue.Store.Errors.{
  IsExpected, claim-IsExpected, complete-IsExpected, fail-IsExpected, renew_lease-IsExpected,
  cancel-IsExpected, get-IsExpected, register_worker-IsExpected, heartbeat-IsExpected,
}
use jobqueue.Api.{write_store_error, Handler, reply_with, ServerConfig, Reply}
use jobqueue.Api.Requests.{decode, path_id, clamp_lease, Decoded, DecodeError}
use jobqueue.Api.Jobs.{
  job_reply, attempts_or_default, create_valid, handle_create_job, list_page, handle_list_jobs,
  handle_get_job, handle_cancel, handle_health, handle_stats, CreateRequest, ListQuery,
}
use jobqueue.Api.Reports.{
  handle_claim, parse_report, with_report, result_of, handle_complete, error_or_default,
  handle_fail, handle_renew_lease, ClaimRequest, ReportRequest,
}
use jobqueue.Api.Workers.{
  worker_reply, handle_register_worker, heartbeat_reply, handle_heartbeat, handle_list_workers,
  RegisterRequest,
}
use jobqueue.Api.Server.{
  serve, Request, health, workers, create_job, list_jobs, claim_job, get_job, cancel_job,
  complete_job, fail_job, renew_job, register, beat, stats,
}

-- The five codes that the API gives to a request it could serve: done, created, bad, missing, in conflict.
abbrev pub IsDocumented : ℕ → Type 0
IsDocumented code = (code ≡ 200) ⊎ (code ≡ 201) ⊎ (code ≡ 400) ⊎ (code ≡ 404) ⊎ (code ≡ 409)

write_store_error-IsDocumented :
    (e : StoreError) → e ≢ database → IsDocumented (write_store_error e).status
unfolding write_store_error
write_store_error-IsDocumented StoreError.not_found h = omega arith
write_store_error-IsDocumented no_jobs h = omega arith
write_store_error-IsDocumented unknown_worker h = omega arith
write_store_error-IsDocumented not_owned h = omega arith
write_store_error-IsDocumented not_cancelable h = omega arith
write_store_error-IsDocumented not_claimable h = omega arith
write_store_error-IsDocumented database h = absurd (h refl)

reply_with-IsDocumented :
    {A : Type 0} (f : A → Reply)
    → ((a : A) → IsDocumented (f a).status)
    → (r : Result A × Db) → IsExpected r.0
    → IsDocumented (reply_with f r).0.status
reply_with-IsDocumented f good (ok a, db) h = good a
reply_with-IsDocumented f good (err e, db) h = write_store_error-IsDocumented e h

job_reply-IsDocumented : (j : Job) → IsDocumented (job_reply 200 j).status
job_reply-IsDocumented j = omega arith

abbrev fits_body : Decoded ReportRequest → Bool
fits_body body = elim body.first [ inl e ↦ true | inr req ↦ fits_integer req.exit_code ]

decoded_fits :
    (first : DecodeError ⊎ ReportRequest) (more : Bool) (req : ReportRequest)
    → fits_body (record { first = first; more = more }) ≡ true
    → decode (record { first = first; more = more }) ≡ inr req
    → fits_integer req.exit_code ≡ true
unfolding decode
decoded_fits (inl e) more req fits h = absurd (cc h)
decoded_fits (inr a) true req fits h = absurd (cc h)
decoded_fits (inr a) false req fits h =
    let same : a ≡ req = cc h in
    ap (λ (x : ReportRequest). fits_integer x.exit_code) (sym same) ∙ fits

with_report-IsDocumented :
    (raw : Text) (body : Decoded ReportRequest) (f : ℕ → ReportRequest → Handler) (db : Db)
    → ((i : ℕ) (req : ReportRequest)
        → decode body ≡ inr req
        → IsDocumented (f i (record req { worker_id = trim_space req.worker_id }) db).0.status)
    → IsDocumented (with_report (parse_report raw body) f db).0.status
unfolding parse_report
with_report-IsDocumented raw body f db h = elim (Option-cases (path_id raw)) [
  | inl e ↦ rw (e, parse_report) (omega arith)
  | inr (i, e) ↦ elim (Sum-cases (decode body)) [
    | inl (msg, d) ↦ rw (e, parse_report) (rw d (omega arith))
    | inr (req, d) ↦ elim (Bool-cases (is_empty (trim_space req.worker_id))) [
      | inl y ↦ rw (e, parse_report) (rw d (rw y (omega arith)))
      | inr n ↦ rw (e, parse_report) (rw d (rw n (h i req d)))
    ]
  ]
]

heartbeat_reply-IsDocumented :
    (r : Result Worker × Db) → IsExpected r.0 → IsDocumented (heartbeat_reply r).0.status
heartbeat_reply-IsDocumented (ok a, db) h = omega arith
heartbeat_reply-IsDocumented (err StoreError.not_found, db) h = omega arith
heartbeat_reply-IsDocumented (err no_jobs, db) h = write_store_error-IsDocumented no_jobs h
heartbeat_reply-IsDocumented (err unknown_worker, db) h =
    write_store_error-IsDocumented unknown_worker h
heartbeat_reply-IsDocumented (err not_owned, db) h = write_store_error-IsDocumented not_owned h
heartbeat_reply-IsDocumented (err not_cancelable, db) h =
    write_store_error-IsDocumented not_cancelable h
heartbeat_reply-IsDocumented (err not_claimable, db) h =
    write_store_error-IsDocumented not_claimable h
heartbeat_reply-IsDocumented (err database, db) h = write_store_error-IsDocumented database h

handle_create_job-IsDocumented :
    (c : Clock) (body : Decoded CreateRequest) (db : Db)
    → IsDocumented (handle_create_job c body db).0.status
unfolding handle_create_job create_valid
handle_create_job-IsDocumented c body db = elim (Sum-cases (decode body)) [
  | inl (msg, e) ↦ rw (e, handle_create_job) (omega arith)
  | inr (req, e) ↦
      let n = attempts_or_default req.max_attempts in
      let type = trim_space req.type in
      elim (Option-cases (validate_new type req.payload n)) [
        | inl v ↦
            let (_, _, _, lo, hi) = (validate_new_iff type req.payload n).0 v in
            rw (e, handle_create_job)
              (rw v (rw (create_in_range c type req.payload n db lo hi) (omega arith)))
        | inr (x, v) ↦ rw (e, handle_create_job) (rw v (omega arith))
      ]
]

handle_list_jobs-IsDocumented :
    (q : ListQuery) (db : Db) → IsDocumented (handle_list_jobs q db).0.status
unfolding handle_list_jobs list_page
handle_list_jobs-IsDocumented q db = ground arith

handle_claim-IsDocumented :
    (cfg : ServerConfig) (c : Clock) (locked : ℕ → Bool) (body : Decoded ClaimRequest) (db : Db)
    → IsDocumented (handle_claim cfg c locked body db).0.status
unfolding handle_claim
handle_claim-IsDocumented cfg c locked body db = elim (Sum-cases (decode body)) [
  | inl (msg, e) ↦ rw (e, handle_claim) (omega arith)
  | inr (req, e) ↦ elim (Bool-cases (is_empty (trim_space req.worker_id))) [
    | inl y ↦ rw (e, handle_claim) (rw y (omega arith))
    | inr n ↦
        let lease = clamp_lease cfg req.lease_seconds in
        let w = trim_space req.worker_id in
        rw (e, handle_claim)
          (rw n (
            reply_with-IsDocumented (job_reply 200) job_reply-IsDocumented
              (claim c locked w lease db) (claim-IsExpected c locked w lease db)))
  ]
]

handle_register_worker-IsDocumented :
    (c : Clock) (body : Decoded RegisterRequest) (db : Db)
    → IsDocumented (handle_register_worker c body db).0.status
unfolding handle_register_worker
handle_register_worker-IsDocumented c body db = elim (Sum-cases (decode body)) [
  | inl (msg, e) ↦ rw (e, handle_register_worker) (omega arith)
  | inr (req, e) ↦
      let w = trim_space req.worker_id in
      elim (Bool-cases (is_empty w || ltb 128 (length w))) [
        | inl y ↦ rw (e, handle_register_worker) (rw y (omega arith))
        | inr n ↦
            rw (e, handle_register_worker)
              (rw n (
                reply_with-IsDocumented (worker_reply 201) (λ a. omega arith)
                  (register_worker c w req.hostname db)
                  (register_worker-IsExpected c w req.hostname db)))
      ]
]

handle_heartbeat-IsDocumented :
    (c : Clock) (raw : Text) (db : Db) → IsDocumented (handle_heartbeat c raw db).0.status
unfolding handle_heartbeat
handle_heartbeat-IsDocumented c raw db = elim (Bool-cases (is_empty (trim_space raw))) [
  | inl y ↦ rw (y, handle_heartbeat) (omega arith)
  | inr n ↦
      rw (n, handle_heartbeat)
        (heartbeat_reply-IsDocumented (heartbeat c (trim_space raw) db)
          (heartbeat-IsExpected c (trim_space raw) db))
]

handle_get_job-IsDocumented : (raw : Text) (db : Db) → IsDocumented (handle_get_job raw db).0.status
unfolding handle_get_job
handle_get_job-IsDocumented raw db = elim (Option-cases (path_id raw)) [
  | inl e ↦ rw (e, handle_get_job) (omega arith)
  | inr (i, e) ↦
      rw (e, handle_get_job)
        (reply_with-IsDocumented (job_reply 200) job_reply-IsDocumented (get i db)
          (get-IsExpected i db))
]

handle_cancel-IsDocumented :
    (c : Clock) (raw : Text) (db : Db) → IsDocumented (handle_cancel c raw db).0.status
unfolding handle_cancel
handle_cancel-IsDocumented c raw db = elim (Option-cases (path_id raw)) [
  | inl e ↦ rw (e, handle_cancel) (omega arith)
  | inr (i, e) ↦
      rw (e, handle_cancel)
        (reply_with-IsDocumented (job_reply 200) job_reply-IsDocumented (cancel c i db)
          (cancel-IsExpected c i db))
]

-- The exit code that a request reports is an INTEGER, or it reports none.
abbrev pub fits_request : Request → Bool
fits_request (complete_job raw body) = fits_body body
fits_request (fail_job raw body) = fits_body body
fits_request _ = true

module _ (cfg : ServerConfig) (backoff : BackoffConfig) where
  -- While the database answers and takes the texts that it is given, every request that has passed the
  -- token check and matched a route, whatever it says and whatever state the queue is in, gets one of
  -- five status codes: 200, 201, 400, 404 or 409, and never a 500; except that a report must not
  -- carry an exit code that is no INTEGER.
  pub serve-IsDocumented :
      (c : Clock) (locked : ℕ → Bool) (request : Request) (db : Db)
      → fits_request request ≡ true
      → IsDocumented (serve cfg backoff c locked request db).0.status
  unfolding serve handle_health handle_stats handle_list_workers handle_complete handle_fail
      handle_renew_lease
  serve-IsDocumented c locked health db fits = omega arith
  serve-IsDocumented c locked stats db fits = omega arith
  serve-IsDocumented c locked workers db fits = omega arith
  serve-IsDocumented c locked (create_job body) db fits = handle_create_job-IsDocumented c body db
  serve-IsDocumented c locked (list_jobs q) db fits = handle_list_jobs-IsDocumented q db
  serve-IsDocumented c locked (claim_job body) db fits =
      handle_claim-IsDocumented cfg c locked body db
  serve-IsDocumented c locked (get_job raw) db fits = handle_get_job-IsDocumented raw db
  serve-IsDocumented c locked (cancel_job raw) db fits = handle_cancel-IsDocumented c raw db
  serve-IsDocumented c locked (complete_job raw body) db fits =
      with_report-IsDocumented raw body _ db λ i req e.
        let w = trim_space req.worker_id in
        let res = result_of req [] in
        let code = decoded_fits body.first body.more req fits e in
        reply_with-IsDocumented (job_reply 200) job_reply-IsDocumented (complete c i w res db)
          (complete-IsExpected c i w res db code)
  serve-IsDocumented c locked (fail_job raw body) db fits =
      with_report-IsDocumented raw body _ db λ i req e.
        let w = trim_space req.worker_id in
        let res = result_of req (error_or_default req.error) in
        let code = decoded_fits body.first body.more req fits e in
        reply_with-IsDocumented (job_reply 200) job_reply-IsDocumented (fail c backoff i w res db)
          (fail-IsExpected c backoff i w res db code)
  serve-IsDocumented c locked (renew_job raw body) db fits =
      with_report-IsDocumented raw body _ db λ i req e.
        let w = trim_space req.worker_id in
        let lease = clamp_lease cfg req.lease_seconds in
        reply_with-IsDocumented (job_reply 200) job_reply-IsDocumented (renew_lease c i w lease db)
          (renew_lease-IsExpected c i w lease db)
  serve-IsDocumented c locked (register body) db fits =
      handle_register_worker-IsDocumented c body db
  serve-IsDocumented c locked (beat raw) db fits = handle_heartbeat-IsDocumented c raw db
