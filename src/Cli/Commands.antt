-- ===== src/Cli/Commands.antt =====
-- cmd/queue/main.go: the commands, as what they print and the error that they end with. What the flags hold
-- is an input, and `json` is what printJSON prints.
use jobqueue.Common.{
  if◌then◌else◌, ℤ, Text, text, trim_space, print_nat, ℕ, ◌≡◌, refl, sym, ap, subst, ◌↔◌, ◌⊎◌, inl,
  inr, Bool, true, false, Option, none, some, List, [], ◌++◌,
}
use jobqueue.Jobs.{
  status_text, status_eq, Status, Job, Worker, pending, running, completed, failed, canceled,
}
use jobqueue.Jobs.Validate.{is_empty}
use jobqueue.Store.Reads.{get, Stats}
use jobqueue.Worker.Client.{Response}
use jobqueue.Cli.{positional_id, IdError, Waiting, finished, refused, timed_out, polling}
use jobqueue.Cli.Calls.{request, RequestError}
use jobqueue.Cli.Print.{line, print_job, print_jobs, print_workers, print_stats}

pub data CommandError : Type 0 where
  payload_missing : CommandError
  bad_argument : IdError → CommandError
  bad_request : RequestError → CommandError
  bad_wait : Waiting → CommandError
  finished_with : ℕ → Status → CommandError

-- What is printed, and the error, `none` for an exit status of 0.
pub record Exit : Type 0 where
  pub out : Text
  pub error : Option CommandError

abbrev pub prints : Text → Exit
prints s = record { out = s; error = none }

abbrev pub fails : CommandError → Exit
fails e = record { out = []; error = some e }

-- The flags of submit.
pub record SubmitFlags : Type 0 where
  pub type : Text
  pub payload : Text
  pub max_attempts : ℤ
  pub wait : Bool
  pub as_json : Bool

-- The body of the request, as the three values.
abbrev pub SubmitBody : Type 0
SubmitBody = Text × Text × ℤ

-- The status of the job that a wait ends with.
abbrev waiting_status : Waiting → Status
waiting_status (finished job) = job.status
waiting_status _ = pending

module _ (server : Text) (json : Job → Text) (stamp : ℕ → Text) where
  -- What follows the wait for the job's end.
  unfoldable pub after_wait : Bool → Waiting → Exit
  unfolding print_job
  after_wait as_json (finished job) = if as_json then prints (json job) else record {
    out = print_job stamp job;
    error = if status_eq job.status completed then none else some (finished_with job.id job.status);
  }
  after_wait as_json other = fails (bad_wait other)

  unfoldable pub submitted_text : Job → Text
  unfolding print_nat status_text
  submitted_text j =
      line (text "Job submitted successfully.")
      ++ line (text "ID: " ++ print_nat j.id)
      ++ line (text "Status: " ++ status_text j.status)

  -- `post` is the server's answer to the request, and `wait_for` the wait for the job of an id.
  unfoldable pub cmd_submit :
      SubmitFlags → (SubmitBody → Text ⊎ Response Job) → (ℕ → Waiting) → Exit
  unfolding request is_empty after_wait submitted_text
  cmd_submit flags post wait_for =
      if is_empty (trim_space flags.payload)
      then fails payload_missing
      else elim (request server (post (flags.type, flags.payload, flags.max_attempts))) [
        | inl e ↦ fails (bad_request e)
        | inr job ↦
            if flags.wait
            then after_wait flags.as_json (wait_for job.id)
            else prints (if flags.as_json then json job else submitted_text job)
      ]

  -- `get` is the server's answer for an id.
  unfoldable pub cmd_get : Bool → List Text → (ℕ → Text ⊎ Response Job) → Exit
  unfolding request positional_id print_job
  cmd_get as_json args get = elim (positional_id args) [
    | inl e ↦ fails (bad_argument e)
    | inr id ↦ elim (request server (get id)) [
      | inl e ↦ fails (bad_request e)
      | inr job ↦ prints (if as_json then json job else print_job stamp job)
    ]
  ]

  unfoldable pub canceled_text : Job → Text
  unfolding print_nat
  canceled_text j = line (text "Job " ++ (print_nat j.id ++ text " canceled."))

  unfoldable pub cmd_cancel : Bool → List Text → (ℕ → Text ⊎ Response Job) → Exit
  unfolding request positional_id canceled_text
  cmd_cancel as_json args post = elim (positional_id args) [
    | inl e ↦ fails (bad_argument e)
    | inr id ↦ elim (request server (post id)) [
      | inl e ↦ fails (bad_request e)
      | inr job ↦ prints (if as_json then json job else canceled_text job)
    ]
  ]

  -- The rows of a table and their number, or the JSON of the answer.
  unfoldable pub cmd_list : (List Job × ℕ → Text) → Bool → Text ⊎ Response (List Job × ℕ) → Exit
  unfolding request print_jobs
  cmd_list raw as_json answer = elim (request server answer) [
    | inl e ↦ fails (bad_request e)
    | inr page ↦ prints (if as_json then raw page else print_jobs page.0 page.1)
  ]

  unfoldable pub cmd_workers :
      (List Worker × ℕ → Text) → (ℕ → Text) → Bool → Text ⊎ Response (List Worker × ℕ) → Exit
  unfolding request print_workers
  cmd_workers raw ago as_json answer = elim (request server answer) [
    | inl e ↦ fails (bad_request e)
    | inr page ↦ prints (if as_json then raw page else print_workers ago page.0 page.1)
  ]

  unfoldable pub cmd_stats : (Stats × ℕ × ℕ → Text) → Bool → Text ⊎ Response (Stats × ℕ × ℕ) → Exit
  unfolding request print_stats
  cmd_stats raw as_json answer = elim (request server answer) [
    | inl e ↦ fails (bad_request e)
    | inr (s, total, alive) ↦
        prints (if as_json then raw (s, total, alive) else print_stats s total alive)
  ]

  -- The wait's end that counts as a success, and what is printed then.
  abbrev EndsWell : Bool → Waiting → Exit → Type 0
  EndsWell as_json waiting exit =
      (final : Job) × (waiting ≡ finished final)
      × ((as_json ≡ true) ⊎ (final.status ≡ completed))
      × (exit.out ≡ (if as_json then json final else print_job stamp final))

  completed_iff :
      (id : ℕ) (s : Status)
      → ((if status_eq s completed then none else some (finished_with id s)) ≡ none)
        ↔ (s ≡ completed)
  completed_iff id pending = ((λ h. absurd (cc h)), λ h. absurd (cc h))
  completed_iff id running = ((λ h. absurd (cc h)), λ h. absurd (cc h))
  completed_iff id completed = ((λ _. refl), λ _. refl)
  completed_iff id failed = ((λ h. absurd (cc h)), λ h. absurd (cc h))
  completed_iff id canceled = ((λ h. absurd (cc h)), λ h. absurd (cc h))

  after_wait_iff :
      (as_json : Bool) (waiting : Waiting)
      → ((after_wait as_json waiting).error ≡ none)
        ↔ EndsWell as_json waiting (after_wait as_json waiting)
  unfolding after_wait
  after_wait_iff true (finished job) = ((λ _. (job, refl, inl refl, refl)), λ _. refl)
  after_wait_iff false (finished job) = (
    (λ h. (job, refl, inr ((completed_iff job.id job.status).0 h), refl)),
    λ (final, same, good, _). elim good [
      | inl wrong ↦ absurd (cc wrong)
      | inr done ↦ (completed_iff job.id job.status).1 (cc (ap waiting_status same, done))
    ],
  )
  after_wait_iff as_json (refused msg) =
      ((λ h. absurd (cc h)), λ (final, wrong, _, _). absurd (cc wrong))
  after_wait_iff as_json (timed_out s) =
      ((λ h. absurd (cc h)), λ (final, wrong, _, _). absurd (cc wrong))
  after_wait_iff as_json polling = ((λ h. absurd (cc h)), λ (final, wrong, _, _). absurd (cc wrong))

  -- A submit that waits, of a payload that is not blank, whose request is answered with a job. It ends with the
  -- exit status 0 exactly when the wait ends with a job that is COMPLETED, or, under --json, with
  -- a job in whatever terminal status; and what it prints then is that job.
  pub cmd_submit_lem :
      (flags : SubmitFlags) (post : SubmitBody → Text ⊎ Response Job) (wait_for : ℕ → Waiting)
      (job : Job)
      → flags.wait ≡ true
      → is_empty (trim_space flags.payload) ≡ false
      → request server (post (flags.type, flags.payload, flags.max_attempts)) ≡ inr job
      → let exit = cmd_submit flags post wait_for in
        (exit.error ≡ none) ↔ (
          (final : Job) × (wait_for job.id ≡ finished final)
          × ((flags.as_json ≡ true) ⊎ (final.status ≡ completed))
          × (exit.out ≡ (if flags.as_json then json final else print_job stamp final)))
  cmd_submit_lem flags post wait_for job w p r =
      let exit : cmd_submit flags post wait_for ≡ after_wait flags.as_json (wait_for job.id) =
        unfold cmd_submit in rw p (rw (r, w) refl) in
      subst (λ x. (x.error ≡ none) ↔ EndsWell flags.as_json (wait_for job.id) x) (sym exit)
        (after_wait_iff flags.as_json (wait_for job.id))
