-- ===== src/Api/Reports.antt =====
-- internal/api/server.go: the endpoints of workers that claim, renew, complete and fail.
use jobqueue.Common.{
  if◌then◌else◌, ℤ, Text, text, trim_space, ℕ, ◌⊎◌, inl, inr, Bool, Option, none, some, [],
}
use jobqueue.Jobs.Validate.{is_empty}
use jobqueue.Jobs.Backoff.{BackoffConfig}
use jobqueue.Store.{Clock}
use jobqueue.Store.Claim.{claim}
use jobqueue.Store.Report.{renew_lease, complete, fail, Report}
use jobqueue.Api.{write_error, Handler, reply_with, refuse, ServerConfig, Reply, bad_request}
use jobqueue.Api.Requests.{decode, path_id, clamp_lease, Decoded, Seconds}
use jobqueue.Api.Jobs.{job_reply, bad_id}

pub record ClaimRequest : Type 0 where
  pub worker_id : Text
  pub lease_seconds : Seconds

abbrev worker_required : Reply
worker_required = refuse (text "worker_id is required")

unfoldable pub handle_claim : ServerConfig → Clock → (ℕ → Bool) → Decoded ClaimRequest → Handler
unfolding decode is_empty clamp_lease claim
handle_claim cfg c locked request db = elim (decode request) [
  | inl msg ↦ (write_error 400 bad_request msg, db)
  | inr req ↦
      if is_empty (trim_space req.worker_id)
      then (worker_required, db)
      else reply_with (job_reply 200)
          (claim c locked (trim_space req.worker_id) (clamp_lease cfg req.lease_seconds) db)
]

-- The body of a completion, a failure or a renewal.
pub record ReportRequest : Type 0 where
  pub worker_id : Text
  pub stdout : Text
  pub stderr : Text
  pub exit_code : Option ℤ
  pub duration_ms : Option ℤ
  pub error : Text
  pub lease_seconds : Seconds

-- The checks that the three share: the refusal, or the id, the trimmed worker and the request.
unfoldable pub parse_report : Text → Decoded ReportRequest → Reply ⊎ (ℕ × ReportRequest)
unfolding path_id decode is_empty
parse_report raw request = elim (path_id raw) [
  | none ↦ inl bad_id
  | some i ↦ elim (decode request) [
    | inl msg ↦ inl (write_error 400 bad_request msg)
    | inr req ↦
        if is_empty (trim_space req.worker_id)
        then inl worker_required
        else inr (i, record req { worker_id = trim_space req.worker_id })
  ]
]

-- The handlers go on only with a report that passes.
abbrev pub with_report : Reply ⊎ (ℕ × ReportRequest) → (ℕ → ReportRequest → Handler) → Handler
with_report (inl reply) f db = (reply, db)
with_report (inr (i, req)) f db = f i req db

abbrev pub result_of : ReportRequest → Text → Report
result_of req error = record {
  stdout = req.stdout;
  stderr = req.stderr;
  exit_code = req.exit_code;
  duration_ms = req.duration_ms;
  error = error;
}

unfoldable pub handle_complete : Clock → Text → Decoded ReportRequest → Handler
unfolding parse_report complete
handle_complete c raw request =
    with_report (parse_report raw request)
      λ i req db. reply_with (job_reply 200) (complete c i req.worker_id (result_of req []) db)

-- A blank message is replaced.
unfoldable pub error_or_default : Text → Text
unfolding is_empty
error_or_default error =
    if is_empty (trim_space error) then text "job failed without an error message" else error

unfoldable pub handle_fail : Clock → BackoffConfig → Text → Decoded ReportRequest → Handler
unfolding parse_report fail error_or_default
handle_fail c backoff raw request = with_report (parse_report raw request) λ i req db.
    reply_with (job_reply 200)
      (fail c backoff i req.worker_id (result_of req (error_or_default req.error)) db)

unfoldable pub handle_renew_lease : ServerConfig → Clock → Text → Decoded ReportRequest → Handler
unfolding parse_report renew_lease clamp_lease
handle_renew_lease cfg c raw request = with_report (parse_report raw request) λ i req db.
    reply_with (job_reply 200)
      (renew_lease c i req.worker_id (clamp_lease cfg req.lease_seconds) db)
