-- ===== src/Api/Chain.antt =====
-- internal/api/server.go, ServeHTTP: a request goes through the token check to its handler.
use jobqueue.Common.{
  Text, text, text_eq, text_eq_iff, ℕ, ◌≡◌, refl, ◌≢◌, inl, inr, Bool, true, [], ◌++◌, arith,
}
use jobqueue.Jobs.Backoff.{BackoffConfig}
use jobqueue.Store.{Db, Clock}
use jobqueue.Api.{write_error, Handler, ServerConfig, unauthorized, literal}
use jobqueue.Api.Middleware.{auth, authorization, auth_outcome}
use jobqueue.Api.Server.{
  serve, Request, health, stats, workers, create_job, list_jobs, claim_job, get_job, cancel_job,
  complete_job, fail_job, renew_job, register, beat,
}

-- The path that the mux matched.
unfoldable pub path_of : Request → Text
path_of health = text "/healthz"
path_of stats = text "/stats"
path_of workers = text "/workers"
path_of (create_job body) = text "/jobs"
path_of (list_jobs q) = text "/jobs"
path_of (claim_job body) = text "/jobs/claim"
path_of (get_job raw) = text "/jobs/" ++ raw
path_of (cancel_job raw) = text "/jobs/" ++ raw ++ text "/cancel"
path_of (complete_job raw body) = text "/jobs/" ++ raw ++ text "/complete"
path_of (fail_job raw body) = text "/jobs/" ++ raw ++ text "/fail"
path_of (renew_job raw body) = text "/jobs/" ++ raw ++ text "/lease"
path_of (register body) = text "/workers/register"
path_of (beat raw) = text "/workers/" ++ raw ++ text "/heartbeat"

module _ (cfg : ServerConfig) (backoff : BackoffConfig) where
  -- The wrappers that only log or replace the body of a built-in error leave this composition.
  unfoldable pub serve_http : Clock → (ℕ → Bool) → Text → Request → Handler
  unfolding auth serve path_of
  serve_http c locked header request =
      auth cfg.auth_token (path_of request) header (serve cfg backoff c locked request)

  health_path :
      (request : Request) → text_eq (path_of request) (text "/healthz") ≡ true → request ≡ health
  unfolding path_of text_eq
  health_path health h = refl
  health_path stats h = absurd (ground arith)
  health_path workers h = absurd (ground arith)
  health_path (create_job body) h = absurd (ground arith)
  health_path (list_jobs q) h = absurd (ground arith)
  health_path (claim_job body) h = absurd (ground arith)
  health_path (get_job raw) h = absurd (ground arith)
  health_path (cancel_job raw) h = absurd (ground arith)
  health_path (complete_job raw body) h = absurd (ground arith)
  health_path (fail_job raw body) h = absurd (ground arith)
  health_path (renew_job raw body) h = absurd (ground arith)
  health_path (register body) h = absurd (ground arith)
  health_path (beat raw) h = absurd (ground arith)

  -- On a server with a token, every request but the health check that brings neither
  -- `Bearer ` and the token nor the bare token is answered with 401 and changes nothing; one that
  -- brings the token as the clients send it is served.
  pub serve_http_guarded :
      (c : Clock) (locked : ℕ → Bool) (header : Text) (request : Request) (db : Db)
      → cfg.auth_token ≢ []
      → (request ≢ health
          → header ≢ authorization cfg.auth_token
          → header ≢ cfg.auth_token
          → serve_http c locked header request db
            ≡ (write_error 401 unauthorized (literal (text "invalid or missing bearer token")), db))
        × (serve_http c locked (authorization cfg.auth_token) request db
            ≡ serve cfg backoff c locked request db)
  unfolding serve_http
  serve_http_guarded c locked header request db set =
      let result =
        auth_outcome cfg.auth_token (path_of request) header (serve cfg backoff c locked request)
          db in
      (
        λ other no bare. elim result.1 [
          | inl e ↦ e
          | inr (e, inl y) ↦ absurd (set y)
          | inr (e, inr (inl y)) ↦
              absurd (
                other (health_path request ((text_eq_iff (path_of request) (text "/healthz")).1 y)))
          | inr (e, inr (inr (inl y))) ↦ absurd (no y)
          | inr (e, inr (inr (inr y))) ↦ absurd (bare y)
        ],
        result.0,
      )
