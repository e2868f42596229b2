-- ===== src/Scenarios/Process.antt =====
-- The theorems about the worker, at concrete commands, networks and answers.
use jobqueue.Common.{
  ◌==◌, if◌then◌else◌, length, All, ℤ, pos, Text, text, trim_space, ℕ, zero, suc, ◌+◌, ◌≤◌, ◌<◌,
  ◌≡◌, refl, ◌≢◌, ◌↔◌, ◌⊎◌, inl, inr, Bool, true, false, Option, none, some, List, [], ◌∷◌, arith,
}
use jobqueue.Jobs.{type_shell, not_owned}
use jobqueue.Api.{code_text, write_store_error}
use jobqueue.Worker.{WorkerConfig}
use jobqueue.Worker.Client.{
  receive, taken_for, receive_store_error, ClientError, Response, no_jobs_error, transport,
}
use jobqueue.Worker.Buffer.{max_output_bytes}
use jobqueue.Worker.Executor.{
  execute_shell, execute_shell_outcome, ExecResult, Execution, succeeded, run_error,
}
use jobqueue.Worker.Delivery.{delivered}
use jobqueue.Worker.Delivery as Sending
use jobqueue.Worker.Run as Looping
use jobqueue.Worker.Exactly.{
  send_complete, report_complete_once, Attempt, Completed, answer_lost, arrived,
}
use jobqueue.Worker.Registration.{
  register_with_retry, WaitBounds, register_with_retry_lem, registered,
}
use jobqueue.Worker.Loop.{process, result_sent, process_outcome, reports_completion}
use jobqueue.Scenarios.{alice, bob, noon, unlocked, waiting_job, running_job, shop, report}
use jobqueue.Worker.Calls.{
  line_of, calls_lem, register_body, heartbeat_lost, heartbeat_call, complete_call,
}
use jobqueue.Api.Server.{to_complete}
use jobqueue.Api.Server.Routing.{received}
use jobqueue.Api.Requests.{path_id}
use jobqueue.Api.Workers.{handle_register_worker}
use jobqueue.Store.{find}
use jobqueue.Worker.Run.{run, run_lem, World, running_on}
use jobqueue.Worker.Attempts.{executions, executions_lem, Event, polls}
use jobqueue.Store.Invariant.{IsWellFormed}
use jobqueue.Store.Lifecycle.Dispatch.{Rising, count_of}
use jobqueue.Jobs.Backoff.{default_backoff}

-- The first answer is lost, the second attempt arrives.
abbrev tries : ℕ → Attempt
tries k = record { clock = noon; fate = if k == 1 then answer_lost else arrived }

abbrev patient : ℕ → Bool
patient k = false

report_complete_once_example :
    let r = Sending.report (send_complete tries 2 alice report) patient shop in
    ((r.1 ≡ shop) ⊎ Completed tries 2 alice report shop r.1)
    × (r.0 ≡ delivered → Completed tries 2 alice report shop r.1)
report_complete_once_example = report_complete_once tries 2 alice report shop patient (omega arith)

abbrev conflict_response : Response Unit
conflict_response = record {
  status = 409;
  error = text "job is not RUNNING under this worker (lease may have expired and been reassigned)";
  code = text "conflict";
  raw = text "{}";
  value = inr tt;
}

receive_store_error_example :
    receive (inr conflict_response) ≡ inl (taken_for not_owned conflict_response.error)
receive_store_error_example =
    receive_store_error not_owned conflict_response
      (unfold write_store_error code_text in (refl, refl, refl))

abbrev echoes : Text → ℤ → Execution
echoes payload timeout = record {
  stdout = payload ∷ [];
  stderr = [];
  ending = succeeded;
  past_deadline = false;
  duration = pos 2_000_000;
}

execute_shell_outcome_example :
    let r = execute_shell echoes (text "hi") (pos 9) in
    ((r.1 ≡ none) ↔ ((false ≡ false) × (succeeded ≡ succeeded)))
    × ((r.1 ≡ none) → (r.0.exit_code ≡ some (pos 0)))
    × ((r.0.exit_code ≡ none) ↔ ((false ≡ true) ⊎ ((msg : Text) × (succeeded ≡ run_error msg))))
    × (2 ≤ max_output_bytes → r.0.stdout ≡ text "hi")
    × (0 ≤ max_output_bytes → r.0.stderr ≡ [])
execute_shell_outcome_example = execute_shell_outcome echoes (text "hi") (pos 9)

abbrev alice_config : WorkerConfig
alice_config = record {
  server_url = text "http://localhost:8080";
  worker_id = alice;
  hostname = text "a";
  token = [];
  lease = pos 30_000_000_000;
  poll_interval = pos 1_000_000_000;
  heartbeat_interval = pos 10_000_000_000;
  job_timeout = pos 9;
}

process_outcome_example :
    (((running_job.type ≡ type_shell) × (false ≡ false) × (succeeded ≡ succeeded))
      → (res : ExecResult) × (process echoes alice_config false running_job
          ≡ reports_completion res)
        × ((result_sent res []).exit_code ≡ some (pos 0)))
    × ((res : ExecResult)
        → process echoes alice_config false running_job ≡ reports_completion res
        → (running_job.type ≡ type_shell) × (false ≡ false) × (succeeded ≡ succeeded))
process_outcome_example = process_outcome echoes alice_config false running_job

abbrev refusing : ℕ → Option ClientError
refusing k = if k == 1 then some (transport (text "connection refused")) else none

first_refused : (j : ℕ) → j < 1 → (refusing (1 + j) ≢ none) × (patient (1 + j) ≡ false)
first_refused zero l = (λ h. absurd (cc h), refl)
first_refused (suc j) l = absurd (omega arith)

register_with_retry_lem_example :
    (waits : List ℕ) × (register_with_retry refusing patient 2 ≡ registered waits)
    × (length waits ≡ 1)
    × All WaitBounds waits
register_with_retry_lem_example = register_with_retry_lem refusing patient 1 first_refused refl

calls_lem_example :
    (raw : Text) × (received (line_of (complete_call 2)).method (line_of (complete_call 2)).path
      ≡ some (to_complete, raw))
    × (path_id raw ≡ some 2)
calls_lem_example = calls_lem (complete_call 2) (omega arith, omega arith)

abbrev slashed : Text
slashed = text "rack/7"

heartbeat_lost_example :
    ((handle_register_worker noon (register_body slashed (text "h")) shop).0.status ≡ 201)
    × (received (line_of (heartbeat_call slashed)).method (line_of (heartbeat_call slashed)).path
        ≡ none)
heartbeat_lost_example =
    heartbeat_lost noon slashed (text "h") shop (unfold trim_space in refl) (omega arith)
      (refl, (refl, (refl, (refl, (refl, (refl, tt)))))) (omega arith)

-- A worker that claims twice and is then told to stop; the world counts its steps.
abbrev counted : World ℕ
counted = record {
  register = λ k s. (true, s);
  claim = λ k s. if k == 1 then (inr running_job, s) else (inl no_jobs_error, s);
  work = λ k job s. s + 1;
  ended = λ k. k == 3;
  ended_behind = λ k. false;
}

abbrev idle_config : WorkerConfig
idle_config = record {
  server_url = [];
  worker_id = alice;
  hostname = [];
  token = [];
  lease = pos 30;
  poll_interval = pos 1;
  heartbeat_interval = pos 10;
  job_timeout = pos 300;
}

run_lem_example :
    (true ≡ true → (Looping.run idle_config counted 3 0).0 ≢ running_on)
    × (0 ≤ (Looping.run idle_config counted 9 0).1)
run_lem_example =
    run_lem idle_config counted (λ s. 0 ≤ s) 2 9 0 (λ k s p. omega arith) (λ k s p. omega arith)
      (λ k s job p e. omega arith) (omega arith)

-- Bob's claim of job 1 is lost on the way back, and alice polls behind it.
abbrev events : List Event
events =
    polls noon unlocked bob (pos 30) answer_lost ∷ polls noon unlocked alice (pos 30) arrived ∷ []

shop_sound : IsWellFormed shop
shop_sound = record { ids = omega arith; rows = (ground arith, (ground arith, tt)) }

executions_lem_example :
    Rising (executions idle_config default_backoff shop events)
    × (count_of 1 (executions idle_config default_backoff shop events) + 1 ≤ 3)
executions_lem_example =
    executions_lem idle_config default_backoff shop events 1 waiting_job shop_sound
      (unfold find in refl)
