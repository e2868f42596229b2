-- ===== src/Bench/Phases.antt =====
-- cmd/queue-bench/main.go: the phases of `run`: its checks, `submitPhase`, `drainPhase`, `awaitTerminal`
-- and `latencyPhase`.
use jobqueue.Common.{
  leb, ◌==◌, if◌then◌else◌, Bool-cases, Sum-cases, ℤ, Text, text, text_eq, ℕ, zero, suc, ◌+◌, ◌-◌,
  ◌≤◌, ◌<◌, ◌≡◌, refl, subst, ◌⊎◌, inl, inr, Bool, true, false, ◌||◌, Option, none, some, List, [],
  ◌∷◌, arith,
}
use jobqueue.Worker.Client.{Response}
use jobqueue.Bench.Http.{do_call, BenchError}
use jobqueue.Bench.Queue.{terminal_count, require_empty_queue, alive_workers, StatsView, QueueError}

pub data RunError : Type 0 where
  unreachable failed_call : BenchError → RunError
  no_workers : RunError
  not_empty : QueueError → RunError

-- What `run` asks before it starts, with the three answers: the baseline, unless a check fails.
unfoldable pub run_checks :
    Text ⊎ Response StatsView → Text ⊎ Response StatsView → Text ⊎ Response StatsView → RunError ⊎ ℕ
unfolding alive_workers require_empty_queue terminal_count
run_checks first second third = elim (alive_workers first) [
  | inl e ↦ inl (unreachable e)
  | inr n ↦ if n == 0 then inl no_workers else elim (require_empty_queue second) [
    | some e ↦ inl (not_empty e)
    | none ↦ elim (terminal_count third) [ inl e ↦ inl (failed_call e) | inr k ↦ inr k ]
  ]
]

-- The goroutines of submitPhase share the first error and the count of successes; `answers` are in the
-- order in which they take the lock.
unfoldable pub collect : List (Text ⊎ Response ℕ) → Option BenchError → ℕ → Option BenchError × ℕ
unfolding do_call
collect [] bad n = (bad, n)
collect (a ∷ answers) bad n = elim (do_call a) [
  | inl e ↦ collect answers (elim bad [ none ↦ some e | some first ↦ some first ]) n
  | inr id ↦ collect answers bad (n + 1)
]

abbrev submitted_of : Option BenchError × ℕ → BenchError ⊎ ℕ
submitted_of (some e, n) = inl e
submitted_of (none, n) = inr n

unfoldable pub submit_phase : List (Text ⊎ Response ℕ) → BenchError ⊎ ℕ
unfolding collect
submit_phase answers = submitted_of (collect answers none 0)

-- How drainPhase's loop ends, or that it goes on.
pub data DrainEnd : Type 0 where
  drained draining : DrainEnd
  unread : BenchError → DrainEnd
  overdue deserted : ℕ → DrainEnd

module _ (counts alive : ℕ → BenchError ⊎ ℕ) (late : ℕ → Bool) (stale : ℕ → ℕ → Bool)
    (baseline submitted : ℕ) where
  -- From poll k on, with the poll of the last look at the workers. `late` tells whether the deadline
  -- has passed at a poll, `stale` whether that look is over 5 s ago; `fuel` is the number of polls.
  unfoldable pub drain_from : ℕ → ℕ → ℕ → DrainEnd
  drain_from zero k last = draining
  drain_from (suc fuel) k last =
      let next = drain_from fuel (k + 1) in
      elim (counts k) [
        | inl e ↦ unread e
        | inr done ↦
            if leb (baseline + submitted) done
            then drained
            else if late k
            then overdue (done - baseline)
            else if stale last k
            then elim (alive k) [
              | inl e ↦ unread e
              | inr n ↦ if n == 0 then deserted (done - baseline) else next k
            ]
            else next last
      ]

  abbrev pub drain_phase : ℕ → DrainEnd
  unfolding drain_from
  drain_phase fuel = drain_from fuel 0 0

  -- A poll that finds jobs unfinished, in time and with workers.
  abbrev pub IsDraining : ℕ → Type 0
  IsDraining k =
      (done : ℕ) × (n : ℕ) × (counts k ≡ inr done)
      × (done < baseline + submitted)
      × (late k ≡ false)
      × (alive k ≡ inr n)
      × (0 < n)

  abbrev pub IsDrained : ℕ → Type 0
  IsDrained k = (done : ℕ) × (counts k ≡ inr done) × (baseline + submitted ≤ done)

  drain_at :
      (n k last : ℕ)
      → ((i : ℕ) → i < n → IsDraining (k + i))
      → IsDrained (k + n)
      → drain_from (suc n) k last ≡ drained
  unfolding drain_from
  drain_at zero k last before h =
      let here : k + 0 ≡ k = omega arith in
      let (done, e, enough) = subst IsDrained here h in
      let yes : leb (baseline + submitted) done ≡ true = ground (arith, enough) in
      rw (e, drain_from) (rw yes refl)
  drain_at (suc n) k last before h =
      let here : k + 0 ≡ k = omega arith in
      let shift : (i : ℕ) → k + suc i ≡ k + 1 + i = λ i. omega arith in
      let (done, a, e, more, soon, there, some_left) =
        subst IsDraining here (before 0 (omega arith)) in
      let unfinished : leb (baseline + submitted) done ≡ false = ground (arith, more) in
      let present : (a == 0) ≡ false = ground (arith, some_left) in
      let rest : (l : ℕ) → drain_from (suc n) (k + 1) l ≡ drained = λ l.
        drain_at n (k + 1) l (λ i b. subst IsDraining (shift i) (before (suc i) (omega arith)))
          (subst IsDrained (shift n) h) in
      elim (Bool-cases (stale last k)) [
        | inl y ↦ rw (e, drain_from) (rw (unfinished, soon, y, there) (rw present (rest k)))
        | inr no_look ↦ rw (e, drain_from) (rw (unfinished, soon, no_look) (rest last))
      ]

  abbrev DrainedBy : ℕ → ℕ → Type 0
  DrainedBy fuel k = (i : ℕ) × (i < fuel) × IsDrained (k + i)

  drained_later : (fuel k : ℕ) → DrainedBy fuel (k + 1) → DrainedBy (suc fuel) k
  drained_later fuel k (i, less, h) =
      let shift : k + 1 + i ≡ k + suc i = omega arith in
      (suc i, omega arith, subst IsDrained shift h)

  drained_by : (fuel k last : ℕ) → drain_from fuel k last ≡ drained → DrainedBy fuel k
  unfolding drain_from
  drained_by zero k last h = absurd (cc h)
  drained_by (suc fuel) k last h = elim (Sum-cases (counts k)) [
    | inl (e, c) ↦ absurd (cc (rw (c, drain_from) at h))
    | inr (done, c) ↦ elim (Bool-cases (leb (baseline + submitted) done)) [
      | inl y ↦
          let here : k ≡ k + 0 = omega arith in
          (0, omega arith, subst IsDrained here (done, c, ground arith))
      | inr f ↦ elim (Bool-cases (late k)) [
        | inl y ↦ absurd (cc (rw (f, y) at (rw (c, drain_from) at h)))
        | inr soon ↦ elim (Bool-cases (stale last k)) [
          | inr fresh ↦
              drained_later fuel k
                (drained_by fuel (k + 1) last (rw (f, soon, fresh) at (rw (c, drain_from) at h)))
          | inl old ↦ elim (Sum-cases (alive k)) [
            | inl (e, a) ↦ absurd (cc (rw (f, soon, old, a) at (rw (c, drain_from) at h)))
            | inr (n, a) ↦ elim (Bool-cases (n == 0)) [
              | inl z ↦ absurd (cc (rw z at (rw (f, soon, old, a) at (rw (c, drain_from) at h))))
              | inr some_left ↦ drained_later fuel k (
                  drained_by fuel (k + 1) k
                    (rw some_left at (rw (f, soon, old, a) at (rw (c, drain_from) at h))))
            ]
          ]
        ]
      ]
    ]
  ]

  -- The wait for the drain ends well when it should, and only then. If some poll finds as many jobs done as
  -- were submitted over the baseline, and every poll before was answered, found fewer, was in time
  -- and had a live worker, then that many polls and one find the queue drained; and if it is found drained,
  -- one of the polls looked at has found that many jobs done.
  pub drain_phase_lem :
      (n fuel : ℕ)
      → (((i : ℕ) → i < n → IsDraining (0 + i)) → IsDrained (0 + n) → drain_phase (suc n) ≡ drained)
        × (drain_phase fuel ≡ drained → (i : ℕ) × (i < fuel) × IsDrained (0 + i))
  unfolding drain_phase
  drain_phase_lem n fuel = ((λ before h. drain_at n 0 0 before h), λ h. drained_by fuel 0 0 h)

-- How awaitTerminal ends, or that it goes on.
pub data Awaited : Type 0 where
  ended awaiting : Awaited
  unanswered : BenchError → Awaited
  still : Text → Awaited

unfoldable pub is_terminal_text : Text → Bool
unfolding text_eq
is_terminal_text s =
    text_eq s (text "COMPLETED") || text_eq s (text "FAILED") || text_eq s (text "CANCELED")

-- The loop from poll k on, with the statuses that the answers hold.
unfoldable pub await_from : (ℕ → BenchError ⊎ Text) → (ℕ → Bool) → ℕ → ℕ → Awaited
unfolding is_terminal_text
await_from answers late zero k = awaiting
await_from answers late (suc fuel) k =
    let more = await_from answers late fuel (k + 1) in
    elim (answers k) [
      | inl e ↦ unanswered e
      | inr status ↦
          if is_terminal_text status then ended else if late k then still status else more
    ]

pub data LatencyError : Type 0 where
  not_submitted : BenchError → LatencyError
  not_ended : Awaited → LatencyError

-- One sample: the answer to the submission, how the wait for the job ended, and the milliseconds.
pub record Sample : Type 0 where
  pub submitted : Text ⊎ Response ℕ
  pub awaited : Awaited
  pub elapsed_ms : ℤ

abbrev add_sample : Awaited → ℤ → LatencyError ⊎ List ℤ → LatencyError ⊎ List ℤ
add_sample ended ms (inl e) = inl e
add_sample ended ms (inr rest) = inr (ms ∷ rest)
add_sample other ms rest = inl (not_ended other)

-- The loop of latencyPhase, up to the sort.
unfoldable pub latency_samples : List Sample → LatencyError ⊎ List ℤ
unfolding do_call
latency_samples [] = inr []
latency_samples (s ∷ ss) =
    let rest = latency_samples ss in
    elim (do_call s.submitted) [
      | inl e ↦ inl (not_submitted e)
      | inr id ↦ add_sample s.awaited s.elapsed_ms rest
    ]
