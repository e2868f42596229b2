-- ===== src/Scenarios/Service.antt =====
-- The theorems about the server at the queue of `jobqueue.Scenarios`.
use jobqueue.Common.{
  take, drop, select, pos, Text, text, trim_space, ℕ, ◌+◌, ◌≡◌, refl, ◌≢◌, inr, false, Option, none,
  some, List, [], ◌∷◌, ◌++◌, map, arith,
}
use jobqueue.Jobs.Backoff.{default_backoff}
use jobqueue.Store.Reads.{status_matches, list}
use jobqueue.Store.Machine.{run}
use jobqueue.Api.{default_config, write_error, ServerConfig, unauthorized, literal}
use jobqueue.Api.Requests.{Decoded}
use jobqueue.Api.Jobs.{CreateRequest}
use jobqueue.Api.Jobs.Creation.{Acceptable}
use jobqueue.Api.Server.{serve, Request, health, cancel_job}
use jobqueue.Api.Server.Refines.{serve-Effect, Effect}
use jobqueue.Api.Middleware.{authorization}
use jobqueue.Api.Chain.{serve_http, serve_http_guarded}
use jobqueue.Store.Invariant.{IsWellFormed}
use jobqueue.Store.{find, has_id}
use jobqueue.Scenarios.{running_job}
use jobqueue.Common.{ℤ, length, ◌≤ℤ◌, ◌≤◌, ◌++◌}
use jobqueue.Api.Reaper.{Warning, IsLogged, is_about}
use jobqueue.Api.Reaper.{run_reaper, reap_call, run_reaper_lem, Reaper}
use jobqueue.Database.Migrate.{migration_names, migrate, AllRecorded, migrate_twice, Schema, Entry}
use jobqueue.Store.Pages.{list_lem}
use jobqueue.Store.Rows.{Descending}
use jobqueue.Api.Server.Statuses.{IsDocumented, serve-IsDocumented}
use jobqueue.Scenarios.{noon, unlocked, shop}
use jobqueue.Api.Writer.{write_header, write, WriterCall, sent_status, log_level}
use jobqueue.Common.{◌⊎◌}
use jobqueue.Api.Recovery.{handle_http, handle_http_lem}

abbrev cancel_request : Request
cancel_request = cancel_job (text "1")

abbrev guarded : ServerConfig
guarded = record default_config { auth_token = text "secret" }

abbrev new_request : CreateRequest
new_request = record { type = text " shell"; payload = text "true"; max_attempts = pos 0 }

abbrev new_body : Decoded CreateRequest
new_body = record { first = inr new_request; more = false }

serve-Effect_example :
    Effect default_backoff shop
      (serve default_config default_backoff noon unlocked cancel_request shop)
serve-Effect_example = serve-Effect default_config default_backoff noon unlocked cancel_request shop

cancel_answer :
    (serve default_config default_backoff noon unlocked cancel_request shop).0.status ≡ 200
unfolding serve
cancel_answer = refl

new_request-Acceptable : Acceptable new_request
unfolding trim_space
new_request-Acceptable = ground arith

serve_http_guarded_example :
    (cancel_request ≢ health
      → text "Bearer guess" ≢ authorization (text "secret")
      → text "Bearer guess" ≢ text "secret"
      → serve_http guarded default_backoff noon unlocked (text "Bearer guess") cancel_request shop
        ≡ (write_error 401 unauthorized (literal (text "invalid or missing bearer token")), shop))
    × (serve_http guarded default_backoff noon unlocked
          (authorization (text "secret"))
          cancel_request
          shop
        ≡ serve guarded default_backoff noon unlocked cancel_request shop)
serve_http_guarded_example =
    serve_http_guarded guarded default_backoff noon unlocked (text "Bearer guess") cancel_request
      shop (λ h. absurd (cc h))

abbrev sweeper : Reaper
sweeper = record { interval = pos 5_000_000_000; batch = pos 100 }

shop-IsSound : IsWellFormed shop
shop-IsSound = record { ids = omega arith; rows = (ground arith, (ground arith, tt)) }

run_reaper_lem_example :
    let all = run_reaper default_backoff sweeper ((noon, unlocked) ∷ []) shop in
    (all.1
      ≡ run default_backoff shop (map (reap_call default_backoff sweeper) ((noon, unlocked) ∷ [])))
    × (lines : List Warning) × (all.0 ≡ (run_reaper default_backoff sweeper [] shop).0 ++ lines)
    × IsLogged running_job (find (has_id 2) all.1.jobs) (find (is_about 2) lines)
unfolding find run
run_reaper_lem_example =
    run_reaper_lem default_backoff sweeper [] (noon, unlocked) shop 2 running_job shop-IsSound refl

-- Two migrations that count what they apply.
abbrev files : List Entry
files =
    record { name = text "002_b.sql"; is_dir = false }
    ∷ record { name = text "001_a.sql"; is_dir = false }
    ∷ []

abbrev count_up : Text → ℕ → Option ℕ
count_up name n = some (n + 1)

abbrev empty_schema : Schema ℕ
empty_schema = record { ledger = []; built = 0 }

abbrev built_schema : Schema ℕ
built_schema = record { ledger = text "002_b.sql" ∷ text "001_a.sql" ∷ []; built = 2 }

migrate_twice_example :
    AllRecorded count_up (migration_names files) built_schema.ledger
    × (migrate count_up files built_schema ≡ (none, built_schema))
migrate_twice_example =
    migrate_twice count_up files empty_schema built_schema (unfold migrate in refl)

serve-IsDocumented_example :
    IsDocumented (serve default_config default_backoff noon unlocked cancel_request shop).0.status
serve-IsDocumented_example =
    serve-IsDocumented default_config default_backoff noon unlocked cancel_request shop refl

shop_order : Descending 3 shop.jobs
shop_order = omega arith

list_lem_example :
    (list (text "PENDING") (pos 1) (pos 0) shop
      ≡ take 1 (drop 0 (select (status_matches (text "PENDING")) shop.jobs)))
    × (list (text "PENDING") (pos 1) (pos 0) shop ++ list (text "PENDING") (pos 2) (pos 1) shop
        ≡ list (text "PENDING") (pos 3) (pos 0) shop)
    × ((limit start : ℤ) → length (list (text "PENDING") limit start shop) ≤ 500)
    × ((limit : ℤ)
        → (limit ≤ℤ pos 0) ⊎ (pos 501 ≤ℤ limit)
        → list (text "PENDING") limit (pos 0) shop
          ≡ take 100 (drop 0 (select (status_matches (text "PENDING")) shop.jobs)))
list_lem_example =
    list_lem (text "PENDING") 1 2 0 shop shop_order (omega arith) (omega arith) (omega arith)

-- A 404 of the mux, in plain text.
abbrev missing : List WriterCall
missing = write_header 404 ∷ write (text "404 page not found") ∷ []

handle_http_lem_example :
    let r =
      handle_http (λ reply. text "{}") (text "/jobs/claim") (text "text/plain") missing false in
    (sent_status r.0 ≡ 404)
    × (r.1 ≡ some (log_level (text "/jobs/claim") (sent_status r.0), sent_status r.0))
handle_http_lem_example =
    handle_http_lem (λ reply. text "{}") (text "/jobs/claim") (text "text/plain") missing false
