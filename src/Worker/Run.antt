-- ===== src/Worker/Run.antt =====
-- internal/worker/worker.go: `Run` and `heartbeatLoop`. What the worker's calls and its jobs do to the world is a
-- parameter.
use jobqueue.Common.{
  if◌then◌else◌, Bool-cases, ℕ, zero, suc, ◌+◌, ◌≡◌, refl, sym, ap, ◌∙◌, ◌≢◌, ◌⊎◌, inl, inr, Bool,
  true, false, Option, none, some, List, [], ◌∷◌, arith,
}
use jobqueue.Jobs.{Job}
use jobqueue.Worker.{WorkerConfig}
use jobqueue.Worker.Client.{ClientError, no_jobs_error, unknown_worker_error, api_error, transport}
use jobqueue.Worker.Loop.{after_claim, Next, works, waits, registers_again, stops}

-- How Run ends: with nil, with the context's error, or not yet.
pub data RunEnd : Type 0 where
  stopped unregistered running_on : RunEnd

-- The world, as the loop meets it: registerWithRetry, which succeeds or finds the context ended; a claim; the execution and report of a
-- job; whether the context has ended at the top of an iteration, and behind its claim.
pub record World (S : Type 0) : Type 0 where
  pub register : ℕ → S → Bool × S
  pub claim : ℕ → S → (ClientError ⊎ Job) × S
  pub work : ℕ → Job → S → S
  pub ended : ℕ → Bool
  pub ended_behind : ℕ → Bool

module _ {S : Type 0} (cfg : WorkerConfig) (world : World S) where
  abbrev and_then : Bool × S → (S → RunEnd × S) → RunEnd × S
  and_then (true, s) next = next s
  and_then (false, s) next = (unregistered, s)

  -- What follows a claim.
  abbrev go_on : ℕ → Next → S → (S → RunEnd × S) → RunEnd × S
  go_on k (works job) s next = next (world.work k job s)
  go_on k (waits d) s next = next s
  go_on k registers_again s next = and_then (world.register k s) next
  go_on k stops s next = (stopped, s)

  -- The loop from iteration k on; `fuel` is the number of iterations looked at.
  unfoldable pub run_from : ℕ → ℕ → S → RunEnd × S
  unfolding after_claim
  run_from zero k s = (running_on, s)
  run_from (suc fuel) k s =
      let (answer, s1) = world.claim k s in
      let on = go_on k (after_claim cfg (world.ended_behind k) answer) s1 (run_from fuel (k + 1)) in
      if world.ended k then (stopped, s) else on

  -- The first registration is that of iteration 0.
  unfoldable pub run : ℕ → S → RunEnd × S
  unfolding run_from
  run fuel s = and_then (world.register 0 s) (run_from fuel 1)

  and_then_ends :
      (r : Bool × S) (next : S → RunEnd × S)
      → ((s : S) → (next s).0 ≢ running_on)
      → (and_then r next).0 ≢ running_on
  and_then_ends (true, s) next h = h s
  and_then_ends (false, s) next h = λ e. absurd (cc e)

  go_on_ends :
      (k : ℕ) (n : Next) (s : S) (next : S → RunEnd × S)
      → ((s : S) → (next s).0 ≢ running_on)
      → (go_on k n s next).0 ≢ running_on
  go_on_ends k (works job) s next h = h (world.work k job s)
  go_on_ends k (waits d) s next h = h s
  go_on_ends k registers_again s next h = and_then_ends (world.register k s) next h
  go_on_ends k stops s next h = λ e. absurd (cc e)

  run_from_ends :
      (n k : ℕ) (s : S) → world.ended (k + n) ≡ true → (run_from (suc n) k s).0 ≢ running_on
  unfolding run_from
  run_from_ends zero k s h =
      let here : k + 0 ≡ k = omega arith in
      let now : world.ended k ≡ true = ap world.ended (sym here) ∙ h in
      rw (now, run_from) (λ e. absurd (cc e))
  run_from_ends (suc n) k s h = elim (Bool-cases (world.ended k)) [
    | inl y ↦ rw (y, run_from) (λ e. absurd (cc e))
    | inr going ↦
        let shift : k + suc n ≡ k + 1 + n = omega arith in
        let next_end : world.ended (k + 1 + n) ≡ true = ap world.ended (sym shift) ∙ h in
        rw (going, run_from)
          (go_on_ends k (after_claim cfg (world.ended_behind k) (world.claim k s).0)
            (world.claim k s).1 (run_from (suc n) (k + 1))
            (λ s'. run_from_ends n (k + 1) s' next_end))
  ]

  module _ (P : S → Type 0) (registers : (k : ℕ) (s : S) → P s → P (world.register k s).1)
      (claims : (k : ℕ) (s : S) → P s → P (world.claim k s).1)
      (works_on : (k : ℕ) (s : S) (job : Job)
        → P s
        → (world.claim k s).0 ≡ inr job
        → P (world.work k job (world.claim k s).1)) where
    and_then_keeps :
        (r : Bool × S) (next : S → RunEnd × S)
        → P r.1
        → ((s : S) → P s → P (next s).1)
        → P (and_then r next).1
    and_then_keeps (true, s) next p h = h s p
    and_then_keeps (false, s) next p h = p

    go_on_keeps :
        (k : ℕ) (answer : ClientError ⊎ Job) (s : S) (next : S → RunEnd × S)
        → P s
        → ((job : Job) → answer ≡ inr job → P (world.work k job s))
        → ((s : S) → P s → P (next s).1)
        → P (go_on k (after_claim cfg (world.ended_behind k) answer) s next).1
    unfolding after_claim
    go_on_keeps k (inr job) s next p q h = h (world.work k job s) (q job refl)
    go_on_keeps k (inl no_jobs_error) s next p q h = h s p
    go_on_keeps k (inl unknown_worker_error) s next p q h =
        and_then_keeps (world.register k s) next (registers k s p) h
    go_on_keeps k (inl (api_error status code msg)) s next p q h =
        elim (Bool-cases (world.ended_behind k)) [ inl y ↦ rw y p | inr n ↦ rw n (h s p) ]
    go_on_keeps k (inl (transport msg)) s next p q h = elim (Bool-cases (world.ended_behind k)) [
      | inl y ↦ rw y p
      | inr n ↦ rw n (h s p)
    ]

    run_from_keeps : (fuel k : ℕ) (s : S) → P s → P (run_from fuel k s).1
    unfolding run_from
    run_from_keeps zero k s p = p
    run_from_keeps (suc fuel) k s p = elim (Bool-cases (world.ended k)) [
      | inl y ↦ rw (y, run_from) p
      | inr going ↦
          rw (going, run_from)
            (go_on_keeps k (world.claim k s).0 (world.claim k s).1 (run_from fuel (k + 1))
              (claims k s p) (λ job e. works_on k s job p e) (run_from_keeps fuel (k + 1)))
    ]

  -- The loop ends soon, and keeps what its steps keep. If the context has ended at the top of iteration n + 1,
  -- then that many iterations are enough for Run to return, whatever the server answers. And what
  -- every registration and claim keeps, and every execution of a job that the claim before it has just
  -- returned, holds at the end of any number of iterations.
  pub run_lem :
      (P : S → Type 0) (n fuel : ℕ) (s : S)
      → ((k : ℕ) (s : S) → P s → P (world.register k s).1)
      → ((k : ℕ) (s : S) → P s → P (world.claim k s).1)
      → ((k : ℕ) (s : S) (job : Job)
          → P s
          → (world.claim k s).0 ≡ inr job
          → P (world.work k job (world.claim k s).1))
      → P s
      → (world.ended (1 + n) ≡ true → (run (suc n) s).0 ≢ running_on) × P (run fuel s).1
  unfolding run
  run_lem P n fuel s registers claims works_on p = (
    (λ h. and_then_ends (world.register 0 s) (run_from (suc n) 1) (λ s'. run_from_ends n 1 s' h)),
    and_then_keeps P registers claims works_on (world.register 0 s) (run_from fuel 1)
        (registers 0 s p) (run_from_keeps P registers claims works_on fuel 1),
  )

-- A tick of heartbeatLoop: whether the context has ended before it and behind the heartbeat, and the
-- answer.
pub record Tick : Type 0 where
  pub ended : Bool
  pub answer : Option ClientError
  pub ended_behind : Bool

-- The number of heartbeats sent, and whether the loop has ended.
unfoldable pub heartbeat_loop : List Tick → ℕ × Bool
heartbeat_loop [] = (0, false)
heartbeat_loop (t ∷ ts) =
    let (n, over) = heartbeat_loop ts in
    let goes_on : ℕ × Bool = (suc n, over) in
    if t.ended
    then (0, true)
    else elim t.answer [ none ↦ goes_on | some e ↦ if t.ended_behind then (1, true) else goes_on ]
