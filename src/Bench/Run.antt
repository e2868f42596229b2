-- ===== src/Bench/Run.antt =====
-- cmd/queue-bench/claim.go: `runClaim`, level by level: the seeding, the registration, the race, and the
-- verdict.
pub mod Joined
pub mod Exactly
use jobqueue.Worker.Client.{Response}
use jobqueue.Common.{
  ltb, if◌then◌else◌, pos, Text, text, print_nat, ℕ, ◌⊎◌, inl, inr, false, Option, none, some, List,
  [], ◌∷◌, ◌++◌,
}
use jobqueue.Jobs.{type_shell}
use jobqueue.Store.{Db, Clock}
use jobqueue.Api.{ServerConfig, Message, Reply}
use jobqueue.Api.Requests.{Decoded}
use jobqueue.Api.Jobs.{handle_create_job, CreateRequest}
use jobqueue.Api.Workers.{handle_register_worker, RegisterRequest}
use jobqueue.Bench.Http.{do_call, arrives, BenchError}
use jobqueue.Bench.Tally.{ClaimRecord}
use jobqueue.Bench.Claimer.{claimer, all_claims, Claimer, claiming, confirming, returned, broken}
use jobqueue.Bench.Race.{race, Turn}

-- One level: the claimers' names, when they are registered and the jobs created, and the requests of
-- the race in their order.
pub record Level : Type 0 where
  pub names : List Text
  pub seeds : List Clock
  pub start : Clock
  pub turns : List Turn

-- The bodies that the benchmark sends, as the server decodes them.
unfoldable pub seed_body : Text → Decoded CreateRequest
seed_body payload = record {
  first = inr (record { type = type_shell; payload = payload; max_attempts = pos 1 });
  more = false;
}

unfoldable pub claimer_body : Text → Decoded RegisterRequest
claimer_body name = record {
  first = inr (record { worker_id = name; hostname = text "queue-bench" });
  more = false;
}

-- The error of an answer.
unfoldable pub error_of_answer : Text ⊎ Response ℕ → Option BenchError
unfolding do_call
error_of_answer answer = elim (do_call answer) [ inl e ↦ some e | inr id ↦ none ]

abbrev pub first_error : Option BenchError → Option BenchError → Option BenchError
first_error (some e) later = some e
first_error none later = later

-- The error of the first claimer that has one.
unfoldable pub broken_by : List Claimer → Option BenchError
broken_by [] = none
broken_by (cl ∷ cls) =
    let rest = broken_by cls in
    elim cl.phase [ claiming ↦ rest | confirming ↦ rest | returned ↦ rest | broken e ↦ some e ]

-- What follows a step, unless it failed.
abbrev pub and_then :
    {A B : Type 0}
    → (BenchError ⊎ A) × Db
    → (A → Db → (BenchError ⊎ B) × Db)
    → (BenchError ⊎ B) × Db
and_then (inl e, db) f = (inl e, db)
and_then (inr a, db) f = f a db

abbrev pub settle : {A : Type 0} → Option BenchError → A → BenchError ⊎ A
settle none a = inr a
settle (some e) a = inl e

-- The error of a call whose value is not read.
unfoldable pub checked : (Message → Text) → Reply × Db → (BenchError ⊎ Unit {0}) × Db
unfolding error_of_answer arrives
checked render (reply, db) = (settle (error_of_answer (arrives render reply)) tt, db)

module _ (cfg : ServerConfig) (render : Message → Text) (payload : Text) where
  -- The jobs are posted whatever the answers are; the first error is kept.
  unfoldable pub seed_backlog : List Clock → Db → Option BenchError × Db
  unfolding seed_body handle_create_job error_of_answer arrives
  seed_backlog [] db = (none, db)
  seed_backlog (c ∷ cs) db =
      let (reply, db1) = handle_create_job c (seed_body payload) db in
      let (later, db2) = seed_backlog cs db1 in
      (first_error (error_of_answer (arrives render reply)) later, db2)

  -- The first error ends the registration.
  unfoldable pub register_claimers : Clock → List Text → Db → (BenchError ⊎ List Claimer) × Db
  unfolding claimer_body claimer handle_register_worker checked
  register_claimers c [] db = (inr [], db)
  register_claimers c (w ∷ ws) db =
      and_then (checked render (handle_register_worker c (claimer_body w) db))
        λ _ db1. and_then (register_claimers c ws db1) λ cls db2. (inr (claimer w ∷ cls), db2)

  -- `raceClaimers`: the claims of all claimers, unless one has met an error.
  unfoldable pub race_claimers : Level → Db → (BenchError ⊎ List ClaimRecord) × Db
  unfolding register_claimers race broken_by all_claims
  race_claimers level db = and_then (register_claimers level.start level.names db) λ cls db1.
      let (after, db2) = race cfg render level.turns (cls, db1) in
      (settle (broken_by after) (all_claims after), db2)

  -- The loop of `runClaim`, with the records of the levels before.
  unfoldable pub run_levels :
      List Level → List ClaimRecord → Db → (BenchError ⊎ List ClaimRecord) × Db
  unfolding seed_backlog race_claimers
  run_levels [] claimed db = (inr claimed, db)
  run_levels (level ∷ levels) claimed db =
      let (bad, db1) = seed_backlog level.seeds db in
      and_then (settle bad tt, db1)
        λ _ db2.
          and_then (race_claimers level db2)
            λ records db3. run_levels levels (claimed ++ records) db3

unfoldable pub claim_verdict : ℕ → ℕ → Text
unfolding print_nat
claim_verdict unique dupes =
    if ltb 0 dupes
    then text "FAILED: "
      ++ (print_nat dupes
          ++ (text " duplicate claim(s) across " ++ (print_nat unique ++ text " jobs")))
    else text "0 of " ++ (print_nat unique ++ text " jobs claimed twice")
