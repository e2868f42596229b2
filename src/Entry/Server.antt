-- ===== src/Entry/Server.antt =====
-- cmd/server/main.go: `run`, with what its calls answer as inputs.
use jobqueue.Common.{
  if◌then◌else◌, ℤ, pos, Text, ℕ, ◌*◌, ◌≡◌, refl, ◌↔◌, ◌⊎◌, inl, inr, Bool, true, false, Option,
  none, some,
}
use jobqueue.Jobs.Backoff.{second, BackoffConfig}
use jobqueue.Api.{default_config, ServerConfig}
use jobqueue.Api.Reaper.{new_reaper, Reaper}
use jobqueue.Entry.{seconds}
use jobqueue.Database.Connect.{DbWait, connected, cancelled, waiting, too_late}

-- The flags, with the two retry delays as the conversions of their floats give them.
pub record ServerFlags : Type 0 where
  pub lease : ℤ
  pub reap : ℤ
  pub heartbeat : ℤ
  pub retry_base : ℤ
  pub retry_max : ℤ
  pub skip_migrate : Bool

unfoldable pub server_config : ServerFlags → Text → ServerConfig
unfolding default_config seconds
server_config flags token = record default_config {
  default_lease = seconds flags.lease;
  heartbeat_timeout = seconds flags.heartbeat;
  auth_token = token;
}

unfoldable pub server_backoff : ServerFlags → BackoffConfig
server_backoff flags = record { base = flags.retry_base; max = flags.retry_max }

unfoldable pub server_reaper : ServerFlags → Reaper
unfolding new_reaper seconds
server_reaper flags = new_reaper (seconds flags.reap) (pos 100)

-- http.Server: the address, and the timeouts in nanoseconds.
pub record HttpServer : Type 0 where
  pub addr : Text
  pub read_header_timeout : ℕ
  pub read_timeout : ℕ
  pub write_timeout : ℕ
  pub idle_timeout : ℕ

unfoldable pub http_server : Text → HttpServer
http_server addr = record {
  addr = addr;
  read_header_timeout = 10 * second;
  read_timeout = 30 * second;
  write_timeout = 60 * second;
  idle_timeout = 120 * second;
}

pub data ServerError : Type 0 where
  no_database : DbWait → ServerError
  migrate_failed listen_failed shutdown_failed : Text → ServerError

-- What run does: it serves, at the end of which the listener has failed or a signal has come and the
-- shutdown is answered, or it does not come to that.
pub record Startup : Type 0 where
  pub database : DbWait
  pub migration : Option Text
  pub listener : Option Text
  pub shutdown : Option Text

abbrev wrapped : (Text → ServerError) → Option Text → Option ServerError
wrapped f none = none
wrapped f (some e) = some (f e)

-- Whether it serves, and the error that it returns.
unfoldable pub server_run : ServerFlags → Startup → Bool × Option ServerError
server_run flags s = elim s.database [
  | connected ↦
      let serving : Bool × Option ServerError = elim s.listener [
        | some e ↦ (true, some (listen_failed e))
        | none ↦ (true, wrapped shutdown_failed s.shutdown)
      ] in
      if flags.skip_migrate
      then serving
      else elim s.migration [ none ↦ serving | some e ↦ (false, some (migrate_failed e)) ]
  | cancelled ↦ (false, some (no_database cancelled))
  | waiting ↦ (false, some (no_database waiting))
  | too_late e ↦ (false, some (no_database (too_late e)))
]

-- The server never serves before it has a database, nor with migrations that failed, unless the flag skips
-- them.
pub server_run_lem :
    (flags : ServerFlags) (s : Startup)
    → ((server_run flags s).0 ≡ true)
      ↔ ((s.database ≡ connected) × ((flags.skip_migrate ≡ true) ⊎ (s.migration ≡ none)))
unfolding server_run
server_run_lem flags s = go s.database s.listener s.migration flags.skip_migrate
  where
    go :
        (d : DbWait) (listener migration : Option Text) (skips : Bool)
        → let r =
            server_run
              (record flags { skip_migrate = skips })
              (record s { database = d; listener = listener; migration = migration }) in
          (r.0 ≡ true) ↔ ((d ≡ connected) × ((skips ≡ true) ⊎ (migration ≡ none)))
    go connected (some e) m true = ((λ _. (refl, inl refl)), λ _. refl)
    go connected none m true = ((λ _. (refl, inl refl)), λ _. refl)
    go connected (some e) none false = ((λ _. (refl, inr refl)), λ _. refl)
    go connected none none false = ((λ _. (refl, inr refl)), λ _. refl)
    go connected l (some e) false =
        ((λ h. absurd (cc h)), λ (_, h). elim h [ inl y ↦ absurd (cc y) | inr y ↦ absurd (cc y) ])
    go cancelled l m b = ((λ h. absurd (cc h)), λ (h, _). absurd (cc h))
    go waiting l m b = ((λ h. absurd (cc h)), λ (h, _). absurd (cc h))
    go (too_late e) l m b = ((λ h. absurd (cc h)), λ (h, _). absurd (cc h))
