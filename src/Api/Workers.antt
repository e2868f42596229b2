-- ===== src/Api/Workers.antt =====
-- internal/api/server.go: the endpoints of the fleet.
use jobqueue.Common.{ltb, if◌then◌else◌, length, Text, text, trim_space, ℕ, inl, inr, ◌||◌, List}
use jobqueue.Jobs.{Worker, StoreError, Result, ok, err}
use jobqueue.Jobs.Validate.{is_empty}
use jobqueue.Store.{Db, Clock}
use jobqueue.Store.Fleet.{register_worker, heartbeat, list_workers}
use jobqueue.Api.{
  Code, write_json, write_error, unknown_worker_message, write_store_error, Handler, reply_with,
  refuse, ServerConfig, Code, Reply, bad_request, literal, worker_body, workers_body,
}
use jobqueue.Api.Requests.{decode, Decoded}

pub record RegisterRequest : Type 0 where
  pub worker_id : Text
  pub hostname : Text

abbrev pub worker_reply : ℕ → Worker → Reply
worker_reply status w = write_json status (worker_body w)

unfoldable pub handle_register_worker : Clock → Decoded RegisterRequest → Handler
unfolding decode is_empty register_worker
handle_register_worker c request db = elim (decode request) [
  | inl msg ↦ (write_error 400 bad_request msg, db)
  | inr req ↦
      if is_empty (trim_space req.worker_id) || ltb 128 (length (trim_space req.worker_id))
      then (refuse (text "worker_id is required and must be at most 128 characters"), db)
      else reply_with (worker_reply 201)
          (register_worker c (trim_space req.worker_id) req.hostname db)
]

abbrev pub heartbeat_reply : Result Worker × Db → Reply × Db
heartbeat_reply (err StoreError.not_found, db) =
    (write_error 404 Code.not_found (literal unknown_worker_message), db)
heartbeat_reply (err e, db) = (write_store_error e, db)
heartbeat_reply (ok w, db) = (worker_reply 200 w, db)

unfoldable pub handle_heartbeat : Clock → Text → Handler
unfolding is_empty heartbeat
handle_heartbeat c raw db =
    if is_empty (trim_space raw)
    then (refuse (text "worker id is required"), db)
    else heartbeat_reply (heartbeat c (trim_space raw) db)

abbrev workers_reply : List Worker → Reply
workers_reply ws = write_json 200 (workers_body ws (length ws))

unfoldable pub handle_list_workers : ServerConfig → Clock → Handler
unfolding list_workers
handle_list_workers cfg c db = (workers_reply (list_workers c cfg.heartbeat_timeout db), db)
