-- ===== src/Api/Server.antt =====
-- internal/api/server.go: the table of routes, and the dispatch of a request to its handler.
pub mod Atomic
pub mod Refines
pub mod Statuses
pub mod Routing
pub mod Paths
use jobqueue.Common.{Text, text, ℕ, Bool, some, List, [], ◌∷◌}
use jobqueue.Jobs.Backoff.{BackoffConfig}
use jobqueue.Store.{Clock}
use jobqueue.Api.{Handler, ServerConfig}
use jobqueue.Api.Requests.{Decoded}
use jobqueue.Api.Jobs.{
  handle_create_job, handle_list_jobs, handle_get_job, handle_cancel, handle_health, handle_stats,
  CreateRequest, ListQuery,
}
use jobqueue.Api.Reports.{
  handle_claim, handle_complete, handle_fail, handle_renew_lease, ClaimRequest, ReportRequest,
}
use jobqueue.Api.Workers.{
  handle_register_worker, handle_heartbeat, handle_list_workers, RegisterRequest,
}
use jobqueue.Store.Reads

-- The endpoints, with what their handlers read of the request.
pub data Request : Type 0 where
  health stats workers : Request
  create_job : Decoded CreateRequest → Request
  list_jobs : ListQuery → Request
  claim_job : Decoded ClaimRequest → Request
  get_job cancel_job : Text → Request
  complete_job fail_job renew_job : Text → Decoded ReportRequest → Request
  register : Decoded RegisterRequest → Request
  beat : Text → Request

-- A segment of a pattern.
pub data Segment : Type 0 where
  lit : Text → Segment
  wild : Segment

pub data Endpoint : Type 0 where
  to_health to_stats to_create to_list to_claim to_get to_cancel to_complete to_fail : Endpoint
  to_renew to_register to_workers to_heartbeat : Endpoint

-- A pattern of the mux: method, path and handler.
pub record Route : Type 0 where
  pub method : Text
  pub path : List Segment
  pub target : Endpoint

abbrev get_method : Text
get_method = text "GET"

abbrev post_method : Text
post_method = text "POST"

abbrev route : Text → List Segment → Endpoint → Route
route m p e = record { method = m; path = p; target = e }

-- The patterns that `routes` registers, in its order.
unfoldable pub routes : List Route
routes =
    route get_method (lit (text "healthz") ∷ []) to_health
    ∷ route get_method (lit (text "stats") ∷ []) to_stats
    ∷ route post_method (lit (text "jobs") ∷ []) to_create
    ∷ route get_method (lit (text "jobs") ∷ []) to_list
    ∷ route post_method (lit (text "jobs") ∷ lit (text "claim") ∷ []) to_claim
    ∷ route get_method (lit (text "jobs") ∷ wild ∷ []) to_get
    ∷ route post_method (lit (text "jobs") ∷ wild ∷ lit (text "cancel") ∷ []) to_cancel
    ∷ route post_method (lit (text "jobs") ∷ wild ∷ lit (text "complete") ∷ []) to_complete
    ∷ route post_method (lit (text "jobs") ∷ wild ∷ lit (text "fail") ∷ []) to_fail
    ∷ route post_method (lit (text "jobs") ∷ wild ∷ lit (text "lease") ∷ []) to_renew
    ∷ route post_method (lit (text "workers") ∷ lit (text "register") ∷ []) to_register
    ∷ route get_method (lit (text "workers") ∷ []) to_workers
    ∷ route post_method (lit (text "workers") ∷ wild ∷ lit (text "heartbeat") ∷ []) to_heartbeat
    ∷ []

module _ (cfg : ServerConfig) (backoff : BackoffConfig) where
  -- The handler of each endpoint. The database answers, so the health check reads its counts.
  unfoldable pub serve : Clock → (ℕ → Bool) → Request → Handler
  unfolding handle_health handle_stats handle_list_workers handle_create_job handle_list_jobs
      handle_claim handle_get_job handle_cancel handle_complete handle_fail handle_renew_lease
      handle_register_worker handle_heartbeat
  serve c locked health db = (handle_health (some (Reads.stats db)), db)
  serve c locked stats db = handle_stats cfg c db
  serve c locked workers db = handle_list_workers cfg c db
  serve c locked (create_job body) db = handle_create_job c body db
  serve c locked (list_jobs q) db = handle_list_jobs q db
  serve c locked (claim_job body) db = handle_claim cfg c locked body db
  serve c locked (get_job raw) db = handle_get_job raw db
  serve c locked (cancel_job raw) db = handle_cancel c raw db
  serve c locked (complete_job raw body) db = handle_complete c raw body db
  serve c locked (fail_job raw body) db = handle_fail c backoff raw body db
  serve c locked (renew_job raw body) db = handle_renew_lease cfg c raw body db
  serve c locked (register body) db = handle_register_worker c body db
  serve c locked (beat raw) db = handle_heartbeat c raw db
