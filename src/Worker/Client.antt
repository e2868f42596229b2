-- ===== src/Worker/Client.antt =====
-- internal/worker/client.go: how the worker reads the server's answers.
use jobqueue.Common.{
  leb, if◌then◌else◌, Text, text, text_eq, trim_space, ℕ, ◌≡◌, refl, ◌⊎◌, inl, inr, not, ◌&&◌, [],
  ◌++◌,
}
use jobqueue.Jobs.{
  StoreError, not_claimable, not_owned, not_cancelable, no_jobs, unknown_worker, database,
}
use jobqueue.Api.{
  code_text, unknown_worker_message, write_store_error, Reply, literal, malformed_json, invalid_job,
  error_body, job_body, jobs_body, worker_body, workers_body, stats_body, health_body,
}

-- The errors of `do`: the two sentinels, the server's error with its status and code, and every other
-- one, of the request or of reading the answer.
pub data ClientError : Type 0 where
  no_jobs_error unknown_worker_error : ClientError
  api_error : ℕ → Text → Text → ClientError
  transport : Text → ClientError

-- An HTTP response: its status, the two fields that json.Unmarshal finds in its body, empty where it
-- finds none, the body, and what the decoder makes of it. A call that reads no value takes Unit.
pub record Response (A : Type 0) : Type 0 where
  pub status : ℕ
  pub error : Text
  pub code : Text
  pub raw : Text
  pub value : Text ⊎ A

-- The Authorization header, empty for none.
unfoldable pub request_header : Text → Text
unfolding text_eq
request_header token = if not (text_eq token []) then text "Bearer " ++ token else []

abbrev error_of : {A : Type 0} → Response A → ClientError
unfolding text_eq trim_space
error_of r =
    if text_eq r.code (text "no_jobs_available")
    then no_jobs_error
    else if text_eq r.code (text "not_found")
        && text_eq r.error (text "unknown worker: register first")
    then unknown_worker_error
    else api_error r.status r.code (if text_eq r.error [] then trim_space r.raw else r.error)

-- `do`: the failure to send or receive, an error status, or the value.
unfoldable pub receive : {A : Type 0} → Text ⊎ Response A → ClientError ⊎ A
unfolding text_eq trim_space
receive (inl failure) = inl (transport failure)
receive (inr r) =
    if leb 300 r.status
    then inl (error_of r)
    else elim r.value [ inl msg ↦ inl (transport msg) | inr a ↦ inr a ]

-- A response holds an error reply of the server whose message is a literal.
abbrev pub Carries : {A : Type 0} → Response A → Reply → Type 0
Carries r reply = elim reply.body [
  | error_body code message ↦ elim message [
    | literal msg ↦ (r.status ≡ reply.status) × (r.code ≡ code_text code) × (r.error ≡ msg)
    | malformed_json msg ↦ Unit {0}
    | invalid_job e ↦ Unit {0}
  ]
  | job_body j ↦ Unit {0}
  | jobs_body js n ↦ Unit {0}
  | worker_body w ↦ Unit {0}
  | workers_body ws n ↦ Unit {0}
  | stats_body s n k ↦ Unit {0}
  | health_body ↦ Unit {0}
]

-- What each error of the store is for the worker, with the message it came with.
unfoldable pub taken_for : StoreError → Text → ClientError
taken_for no_jobs msg = no_jobs_error
taken_for unknown_worker msg = unknown_worker_error
taken_for StoreError.not_found msg = api_error 404 (text "not_found") msg
taken_for not_owned msg = api_error 409 (text "conflict") msg
taken_for not_cancelable msg = api_error 409 (text "conflict") msg
taken_for not_claimable msg = api_error 409 (text "conflict") msg
taken_for database msg = api_error 500 (text "internal_error") msg

-- The worker takes each of the store's seven errors, in the reply that writeStoreError makes of it, for what
-- it is: an empty queue and an unknown worker for the two sentinel errors that its loop waits for, the three
-- conflicts, of a job that is not its own or in another state, for an API error of status 409, a
-- missing job for one of 404, and an error of the database for one of 500.
pub receive_store_error :
    {A : Type 0} (e : StoreError) (r : Response A)
    → Carries r (write_store_error e)
    → receive (inr r) ≡ inl (taken_for e r.error)
unfolding receive write_store_error unknown_worker_message code_text taken_for text_eq
receive_store_error StoreError.not_found r (s, c, m) = rw (s, c, m) refl
receive_store_error no_jobs r (s, c, m) = rw (s, c) refl
receive_store_error unknown_worker r (s, c, m) = rw (s, c, m) refl
receive_store_error not_owned r (s, c, m) = rw (s, c, m) refl
receive_store_error not_cancelable r (s, c, m) = rw (s, c, m) refl
receive_store_error not_claimable r (s, c, m) = rw (s, c, m) refl
receive_store_error database r (s, c, m) = rw (s, c, m) refl
