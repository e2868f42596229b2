-- ===== src/Scenarios/Load.antt =====
-- The theorems about the benchmark, at a small run.
use jobqueue.Common.{
  ◌==◌, if◌then◌else◌, length, All, Text, text, text_eq, trim_space, ℕ, ◌+◌, ◌<◌, ◌≡◌, refl, ◌⊎◌,
  inr, true, false, List, [], ◌∷◌, arith,
}
use jobqueue.Store.{find, Db}
use jobqueue.Api.{default_config, Message}
use jobqueue.Bench.Tally.{count_claims, ClaimRecord}
use jobqueue.Bench.Race.{race, count_pending, Turn}
use jobqueue.Bench.Run.{run_levels, Level}
use jobqueue.Bench.Run.Exactly.{IsPayload, run_levels_lem}
use jobqueue.Jobs.Validate.{is_empty}
use jobqueue.Scenarios.{bob, noon, unlocked, shop}
use jobqueue.Jobs.Backoff.{default_backoff}
use jobqueue.Bench.Http.{BenchError}
use jobqueue.Bench.Claimer.{claimer, returned}
use jobqueue.Bench.Race.Turns.{IsFit}
use jobqueue.Bench.Race.Ends.{phase_at, race_lem}
use jobqueue.Bench.Run.Joined.{IsName}
use jobqueue.Bench.Phases.{drain_phase, IsDraining, IsDrained, drain_phase_lem, drained}
use jobqueue.Bench.Cleanup.{cancel_pending, cleaned}
use jobqueue.Bench.Cleanup.Pages.{cancel_pending_lem}

abbrev plain : Message → Text
plain m = []

abbrev turn : ℕ → Turn
turn i = record { clock = noon; locked = unlocked; who = i }

-- Two claimers and three jobs; each claims in turn.
abbrev one_level : Level
one_level = record {
  names = text "bench-claimer-2-0" ∷ text "bench-claimer-2-1" ∷ [];
  seeds = noon ∷ noon ∷ noon ∷ [];
  start = noon;
  turns = turn 0 ∷ turn 1 ∷ turn 0 ∷ turn 1 ∷ turn 0 ∷ [];
}

abbrev empty : Db
empty = record { jobs = []; workers = []; next_id = 1 }

load-IsPayload : IsPayload (text "true")
unfolding trim_space
load-IsPayload = ((λ e. absurd (cc e)), omega arith)

names-IsName : All IsName one_level.names
unfolding trim_space is_empty
names-IsName = ((refl, refl, omega arith), ((refl, refl, omega arith), tt))

run_levels_lem_example :
    let r = run_levels default_config plain (text "true") (one_level ∷ []) [] empty in
    (rs : List ClaimRecord) × (r.0 ≡ inr rs)
    × ((count_claims rs).1 ≡ 0)
    × (length (count_claims rs).0 + count_pending r.1.jobs ≡ 3)
run_levels_lem_example =
    run_levels_lem default_config plain (text "true") load-IsPayload (one_level ∷ []) empty tt
      (names-IsName, tt)

-- Bob looks twice more than there are jobs to be had, twice over.
abbrev turns : List Turn
turns = turn 0 ∷ turn 0 ∷ turn 0 ∷ turn 0 ∷ []

bob-IsFit : IsFit shop.workers bob
unfolding trim_space is_empty find text_eq
bob-IsFit = record { trimmed = refl; named = refl; registered = refl }

race_lem_example :
    phase_at 0 (race default_config plain turns (claimer bob ∷ [], shop)).0 ≡ returned
race_lem_example =
    race_lem default_config plain 0 turns (bob ∷ []) shop (omega arith) (bob-IsFit, tt)
      (omega arith)

cancel_pending_lem_example :
    let r = cancel_pending plain default_backoff (λ k. noon) 2 shop in
    (r.0 ≡ cleaned) × (count_pending r.1.jobs ≡ 0)
cancel_pending_lem_example =
    cancel_pending_lem plain default_backoff (λ k. noon) 2 shop (omega arith) (omega arith)
      (omega arith)

-- No job is done at the first poll, two are at every later one.
abbrev polled : ℕ → BenchError ⊎ ℕ
polled k = if k == 0 then inr 0 else inr 2

abbrev one_alive : ℕ → BenchError ⊎ ℕ
one_alive k = inr 1

drain_phase_lem_example :
    (((i : ℕ) → i < 1 → IsDraining polled one_alive (λ k. false) (λ l k. true) 0 2 (0 + i))
      → IsDrained polled one_alive (λ k. false) (λ l k. true) 0 2 (0 + 1)
      → drain_phase polled one_alive (λ k. false) (λ l k. true) 0 2 2 ≡ drained)
    × (drain_phase polled one_alive (λ k. false) (λ l k. true) 0 2 5 ≡ drained
        → (i : ℕ) × (i < 5) × IsDrained polled one_alive (λ k. false) (λ l k. true) 0 2 (0 + i))
drain_phase_lem_example = drain_phase_lem polled one_alive (λ k. false) (λ l k. true) 0 2 1 5
