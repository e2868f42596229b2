-- ===== src/Scenarios.antt =====
-- A small queue at one moment, and what the theorems say of it.
mod Queue
mod Policy
mod Service
mod Process
mod Tools
mod Load
use jobqueue.Common.{
  pos_part, pos, Text, text, ℕ, ◌+◌, ◌-◌, ◌/◌, Bool, false, none, some, List, [], ◌∷◌,
}
use jobqueue.Jobs.{type_shell, Job, WorkerRow, pending, running}
use jobqueue.Store.{Db, Clock}
use jobqueue.Store.Report.{Report}
use jobqueue.Store.Machine.{Call, claims, fails}

abbrev pub alice : Text
alice = text "alice"

abbrev pub bob : Text
bob = text "bob"

-- The clock at 100, with durations read in thousandths.
abbrev pub noon : Clock
noon = record {
  now = 100;
  after = λ d. 100 + pos_part d / 1000;
  before = λ d. 100 - pos_part d / 1000;
}

abbrev pub evening : Clock
evening = record {
  now = 900;
  after = λ d. 900 + pos_part d / 1000;
  before = λ d. 900 - pos_part d / 1000;
}

abbrev pub unlocked : ℕ → Bool
unlocked i = false

abbrev pub waiting_job : Job
waiting_job = record {
  id = 1;
  type = type_shell;
  payload = text "true";
  status = pending;
  attempts = 1;
  max_attempts = 3;
  created_at = 10;
  updated_at = 20;
  available_at = 50;
  worker_id = none;
  lease_until = none;
  last_error = some (text "exit 1");
  result_stdout = some [];
  result_stderr = some [];
  result_exit_code = some (pos 1);
  duration_ms = some (pos 4);
}

abbrev pub running_job : Job
running_job = record {
  id = 2;
  type = type_shell;
  payload = text "sleep 5";
  status = running;
  attempts = 1;
  max_attempts = 1;
  created_at = 30;
  updated_at = 60;
  available_at = 30;
  worker_id = some alice;
  lease_until = some 90;
  last_error = none;
  result_stdout = none;
  result_stderr = none;
  result_exit_code = none;
  duration_ms = none;
}

abbrev pub alice_row : WorkerRow
alice_row = record {
  id = alice;
  hostname = text "a";
  registered_at = 5;
  last_heartbeat = 60;
  jobs_processed = 7;
  current_job_id = some 2;
}

abbrev pub bob_row : WorkerRow
bob_row = record {
  id = bob;
  hostname = text "b";
  registered_at = 6;
  last_heartbeat = 70;
  jobs_processed = 0;
  current_job_id = none;
}

-- Job 2 runs under alice with a lease that ended at 90; job 1 waits for its second attempt.
abbrev pub shop : Db
shop = record {
  jobs = running_job ∷ waiting_job ∷ [];
  workers = alice_row ∷ bob_row ∷ [];
  next_id = 3;
}

abbrev pub report : Report
report = record {
  stdout = text "done";
  stderr = [];
  exit_code = some (pos 0);
  duration_ms = some (pos 12);
  error = [];
}

abbrev pub history : List (Clock × Call)
history =
    (noon, claims unlocked bob (pos 30))
    ∷ (noon, fails 2 1 bob report)
    ∷ (evening, claims unlocked alice (pos 30))
    ∷ []
