-- ===== src/Bench/Http.antt =====
-- cmd/queue-bench/main.go: how the benchmark reads the server's answers.
use jobqueue.Common.{
  leb, if◌then◌else◌, Text, text, text_eq, ℕ, ◌≡◌, refl, ◌⊎◌, inl, inr, Bool, false, Option, none,
  some, [],
}
use jobqueue.Jobs.{Job, no_jobs}
use jobqueue.Worker.Client.{Response}
use jobqueue.Api.{
  code_text, write_json, write_store_error, Message, Body, Reply, error_body, job_body,
}

-- An answer that is no success, with its status, code and message, or any other error of the call.
pub data BenchError : Type 0 where
  http_error : ℕ → Text → Text → BenchError
  call_failed : Text → BenchError

unfoldable pub has_code : Text → BenchError → Bool
unfolding text_eq
has_code code (http_error status c msg) = text_eq c code
has_code code (call_failed msg) = false

-- `do`: the failure to send, an error status, or the value.
unfoldable pub do_call : {A : Type 0} → Text ⊎ Response A → BenchError ⊎ A
do_call (inl failure) = inl (call_failed failure)
do_call (inr r) =
    if leb 300 r.status
    then inl (http_error r.status r.code r.error)
    else elim r.value [ inl msg ↦ inl (call_failed msg) | inr a ↦ inr a ]

-- A successful claim is the job's id; an empty queue is no error.
unfoldable pub claim_one : Text ⊎ Response ℕ → BenchError ⊎ Option ℕ
unfolding do_call has_code
claim_one answer = elim (do_call answer) [
  | inr id ↦ inr (some id)
  | inl e ↦ if has_code (text "no_jobs_available") e then inr none else inl e
]

abbrev pub error_fields : (Message → Text) → Body → Text × Text
unfolding code_text
error_fields render (error_body code msg) = (render msg, code_text code)
error_fields render _ = ([], [])

-- What arrives of a reply, with what the caller decodes of its JSON body; `render` is the message that
-- an error's body holds.
unfoldable pub arrives_as : {A : Type 0} → (Message → Text) → (Body → A) → Reply → Text ⊎ Response A
unfolding error_fields
arrives_as render read reply = inr (record {
  status = reply.status;
  error = (error_fields render reply.body).0;
  code = (error_fields render reply.body).1;
  raw = [];
  value = inr (read reply.body);
})

abbrev pub id_of : Body → ℕ
id_of (job_body j) = j.id
id_of _ = 0

-- The same, for a struct with an ID.
unfoldable pub arrives : (Message → Text) → Reply → Text ⊎ Response ℕ
unfolding arrives_as
arrives render reply = arrives_as render id_of reply

-- The answers to a claim that a claimer goes on with.
pub claim_one_no_jobs :
    (render : Message → Text) → claim_one (arrives render (write_store_error no_jobs)) ≡ inr none
unfolding claim_one do_call has_code arrives arrives_as error_fields write_store_error code_text
    text_eq
claim_one_no_jobs render = refl

pub claim_one_job :
    (render : Message → Text) (j : Job)
    → claim_one (arrives render (write_json 200 (job_body j))) ≡ inr (some j.id)
unfolding claim_one do_call arrives arrives_as error_fields
claim_one_job render j = refl
