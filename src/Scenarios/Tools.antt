-- ===== src/Scenarios/Tools.antt =====
-- The theorem about the command line client, at a concrete job.
use jobqueue.Common.{
  if◌then◌else◌, pos, Text, text, trim_space, ℕ, ◌≡◌, refl, ◌↔◌, ◌⊎◌, inr, true, none, [],
}
use jobqueue.Jobs.{type_shell, Job, completed, failed}
use jobqueue.Cli.{finished}
use jobqueue.Scenarios.{waiting_job, running_job}
use jobqueue.Cli.Calls.{request}
use jobqueue.Cli.Commands.{cmd_submit, cmd_submit_lem, SubmitFlags}
use jobqueue.Cli.Print.{print_job}
use jobqueue.Worker.Client.{Response}
use jobqueue.Jobs.Validate.{is_empty}

-- A submit that waits and asks for JSON, and a job that fails.
abbrev flags : SubmitFlags
flags = record {
  type = type_shell;
  payload = text "false";
  max_attempts = pos 1;
  wait = true;
  as_json = true;
}

abbrev failed_job : Job
failed_job = record running_job { status = failed }

abbrev created : Text ⊎ Response Job
created = inr (record { status = 201; error = []; code = []; raw = []; value = inr waiting_job })

abbrev as_json : Job → Text
as_json j = text "{}"

abbrev no_time : ℕ → Text
no_time t = []

cmd_submit_lem_example :
    let exit = cmd_submit [] as_json no_time flags (λ body. created) (λ i. finished failed_job) in
    (exit.error ≡ none) ↔ (
      (final : Job) × (finished failed_job ≡ finished final)
      × ((true ≡ true) ⊎ (final.status ≡ completed))
      × (exit.out ≡ (if true then as_json final else print_job no_time final)))
cmd_submit_lem_example =
    cmd_submit_lem [] as_json no_time flags (λ body. created) (λ i. finished failed_job) waiting_job
      refl (unfold is_empty trim_space in refl) (unfold request in refl)
