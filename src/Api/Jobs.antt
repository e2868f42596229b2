-- ===== src/Api/Jobs.antt =====
-- internal/api/server.go: the endpoints of clients: create, list, read and cancel jobs, health, stats.
pub mod Creation
use jobqueue.Common.{
  ◌==◌, if◌then◌else◌, length, select, ℤ, pos, negsuc, Text, text, text_eq, trim_space, to_upper, ℕ,
  inl, inr, not, ◌&&◌, Option, none, some, List, [], ◌++◌,
}
use jobqueue.Jobs.{valid_status, Job}
use jobqueue.Jobs.Validate.{validate_new, Invalid}
use jobqueue.Store.{Clock}
use jobqueue.Store.Reads.{create, get, list, Stats, stats}
use jobqueue.Store.Report.{cancel}
use jobqueue.Store.Fleet.{list_workers}
use jobqueue.Api.{
  write_json, write_error, Handler, reply_with, refuse, ServerConfig, Reply, bad_request,
  internal_error, literal, invalid_job, job_body, jobs_body, stats_body, health_body,
}
use jobqueue.Api.Requests.{decode, path_id, int_param, Decoded}

pub record CreateRequest : Type 0 where
  pub type : Text
  pub payload : Text
  pub max_attempts : ℤ

-- A job in a reply, with its status.
abbrev pub job_reply : ℕ → Job → Reply
job_reply status j = write_json status (job_body j)

-- Omitted means the default, not zero attempts.
abbrev pub attempts_or_default : ℤ → ℤ
attempts_or_default (pos n) = if n == 0 then pos 3 else pos n
attempts_or_default (negsuc n) = negsuc n

unfoldable pub create_valid : Clock → CreateRequest → Option Invalid → Handler
unfolding create
create_valid c req (some e) db = (write_error 400 bad_request (invalid_job e), db)
create_valid c req none db =
    reply_with (job_reply 201)
      (create c (trim_space req.type) req.payload (attempts_or_default req.max_attempts) db)

unfoldable pub handle_create_job : Clock → Decoded CreateRequest → Handler
unfolding decode create_valid validate_new
handle_create_job c request db = elim (decode request) [
  | inl msg ↦ (write_error 400 bad_request msg, db)
  | inr req ↦
      create_valid c req
        (validate_new (trim_space req.type) req.payload (attempts_or_default req.max_attempts)) db
]

-- The query parameters of the list, as raw text.
pub record ListQuery : Type 0 where
  pub status : Text
  pub limit : Text
  pub offset : Text

abbrev jobs_reply : List Job → Reply
jobs_reply js = write_json 200 (jobs_body js (length js))

unfoldable pub list_page : Text → ListQuery → Handler
unfolding int_param list
list_page status q db = elim (int_param q.limit 100) [
  | inl msg ↦ (refuse (text "invalid limit: " ++ msg), db)
  | inr limit ↦ elim (int_param q.offset 0) [
    | inl msg ↦ (refuse (text "invalid offset: " ++ msg), db)
    | inr offset ↦ (jobs_reply (list status (pos limit) (pos offset) db), db)
  ]
]

abbrev status_filter : ListQuery → Text
status_filter q = to_upper (trim_space q.status)

unfoldable pub handle_list_jobs : ListQuery → Handler
unfolding list_page valid_status
handle_list_jobs q db =
    if not (text_eq (status_filter q) []) && not (valid_status (status_filter q))
    then (
      refuse (text "invalid status filter: use PENDING, RUNNING, COMPLETED, FAILED or CANCELED"),
      db,
    )
    else list_page (status_filter q) q db

abbrev pub bad_id : Reply
bad_id = refuse (text "invalid job id: must be a positive integer")

unfoldable pub handle_get_job : Text → Handler
unfolding path_id get
handle_get_job raw db = elim (path_id raw) [
  | none ↦ (bad_id, db)
  | some i ↦ reply_with (job_reply 200) (get i db)
]

unfoldable pub handle_cancel : Clock → Text → Handler
unfolding path_id cancel
handle_cancel c raw db = elim (path_id raw) [
  | none ↦ (bad_id, db)
  | some i ↦ reply_with (job_reply 200) (cancel c i db)
]

-- `none` is a database that cannot be read.
unfoldable pub handle_health : Option Stats → Reply
handle_health none = write_error 503 internal_error (literal (text "database unavailable"))
handle_health (some s) = write_json 200 health_body

unfoldable pub handle_stats : ServerConfig → Clock → Handler
unfolding stats list_workers
handle_stats cfg c db =
    let workers = list_workers c cfg.heartbeat_timeout db in
    (
      write_json 200
          (stats_body (stats db) (length workers) (length (select (λ w. w.alive) workers))),
      db,
    )
