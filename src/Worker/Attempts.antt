-- ===== src/Worker/Attempts.antt =====
-- internal/worker/worker.go and internal/jobs/store.go: the executions of any number of workers, over a
-- network that loses requests and answers.
use jobqueue.Common.{
  All, ℤ, Text, text, ℕ, ◌+◌, ◌≤◌, ◌<◌, ◌≡◌, ◌⊎◌, inl, inr, Bool, false, some, List, [], ◌∷◌, ◌++◌,
  arith,
}
use jobqueue.Jobs.{
  Job, StoreError, Result, not_claimable, not_owned, not_cancelable, no_jobs, unknown_worker,
  database, ok, err,
}
use jobqueue.Jobs.Backoff.{BackoffConfig}
use jobqueue.Store.{find, has_id, Db, Clock}
use jobqueue.Store.Claim.{claim}
use jobqueue.Store.Machine.{step, run, Call, claims}
use jobqueue.Store.Lifecycle.Dispatch.{
  handed, dispatched, Rising, count_of, dispatches, dispatches-Rising, dispatches_budget,
}
use jobqueue.Worker.{WorkerConfig}
use jobqueue.Worker.Client.{taken_for, ClientError, transport}
use jobqueue.Worker.Exactly.{Fate, request_lost, answer_lost, arrived}
use jobqueue.Worker.Loop.{after_claim, Next, works}
use jobqueue.Store.Invariant.{IsWellFormed}

-- A worker's claim, with what the network does with it; or any other call of the store, of whatever
-- worker, client or sweep.
pub data Event : Type 0 where
  polls : Clock → (ℕ → Bool) → Text → ℤ → Fate → Event
  calls : Clock × Call → Event

-- The calls that reach the store.
abbrev pub calls_of : Event → List (Clock × Call)
calls_of (polls c locked w lease request_lost) = []
calls_of (polls c locked w lease answer_lost) = (c, claims locked w lease) ∷ []
calls_of (polls c locked w lease arrived) = (c, claims locked w lease) ∷ []
calls_of (calls s) = s ∷ []

-- The answer that the worker reads.
abbrev claim_answer : Fate → Result Job → ClientError ⊎ Job
unfolding taken_for
claim_answer request_lost r = inl (transport (text "connection lost"))
claim_answer answer_lost r = inl (transport (text "connection lost"))
claim_answer arrived (ok j) = inr j
claim_answer arrived (err e) = inl (taken_for e [])

-- The attempt that the worker executes then, if its loop goes on with the job.
abbrev works_on_next : Next → List (ℕ × ℕ)
works_on_next (works j) = (j.id, j.attempts) ∷ []
works_on_next _ = []

module _ (cfg : WorkerConfig) (backoff : BackoffConfig) where
  unfoldable pub executed : Event → Db → List (ℕ × ℕ)
  unfolding claim after_claim claim_answer
  executed (polls c locked w lease fate) db =
      works_on_next (after_claim cfg false (claim_answer fate (claim c locked w lease db).0))
  executed (calls s) db = []

  -- The attempts that the workers execute, in the order of their claims.
  unfoldable pub executions : Db → List Event → List (ℕ × ℕ)
  unfolding executed run
  executions db [] = []
  executions db (e ∷ es) = executed e db ++ executions (run backoff db (calls_of e)) es

abbrev pub all_calls : List Event → List (Clock × Call)
all_calls [] = []
all_calls (e ∷ es) = calls_of e ++ all_calls es

-- A list with some of its entries left out.
data IsPart {A : Type 0} : List A → List A → Type 0 where
  done : IsPart [] []
  skip : {x : A} {xs ys : List A} → IsPart xs ys → IsPart xs (x ∷ ys)
  keep : {x : A} {xs ys : List A} → IsPart xs ys → IsPart (x ∷ xs) (x ∷ ys)

part-All : {A : Type 0} (P : A → Type 0) {xs ys : List A} → IsPart xs ys → All P ys → All P xs
part-All P done h = tt
part-All P (skip p) h = part-All P p h.1
part-All P (keep p) h = (h.0, part-All P p h.1)

part-Rising : {xs ys : List (ℕ × ℕ)} → IsPart xs ys → Rising ys → Rising xs
part-Rising done h = tt
part-Rising (skip p) h = part-Rising p h.1
part-Rising (keep {x = d} p) h = (part-All (λ e. e.0 ≡ d.0 → d.1 < e.1) p h.0, part-Rising p h.1)

part_count : (i : ℕ) {xs ys : List (ℕ × ℕ)} → IsPart xs ys → count_of i xs ≤ count_of i ys
part_count i done = omega arith
part_count i (skip {x = d} p) = ground (arith, part_count i p)
part_count i (keep {x = d} p) = ground (arith, part_count i p)

skip_all : {A : Type 0} (zs : List A) {xs ys : List A} → IsPart xs ys → IsPart xs (zs ++ ys)
skip_all [] p = p
skip_all (z ∷ zs) p = skip (skip_all zs p)

module _ (cfg : WorkerConfig) (backoff : BackoffConfig) where
  abbrev works_after : Fate → Result Job → List (ℕ × ℕ)
  works_after fate r = works_on_next (after_claim cfg false (claim_answer fate r))

  -- An answer that arrives is what the store handed out.
  arrived-IsPart :
      (r : Result Job) (xs ys : List (ℕ × ℕ))
      → IsPart xs ys
      → IsPart (works_after arrived r ++ xs) (handed r ++ ys)
  unfolding after_claim claim_answer taken_for
  arrived-IsPart (ok j) xs ys p = keep p
  arrived-IsPart (err StoreError.not_found) xs ys p = p
  arrived-IsPart (err not_claimable) xs ys p = p
  arrived-IsPart (err not_owned) xs ys p = p
  arrived-IsPart (err not_cancelable) xs ys p = p
  arrived-IsPart (err no_jobs) xs ys p = p
  arrived-IsPart (err unknown_worker) xs ys p = p
  arrived-IsPart (err database) xs ys p = p

  executions-IsPart :
      (db : Db) (es : List Event)
      → IsPart (executions cfg backoff db es) (dispatches backoff db (all_calls es))
  unfolding executions executed dispatches dispatched run after_claim claim_answer
  executions-IsPart db [] = done
  executions-IsPart db (polls c locked w lease request_lost ∷ es) = executions-IsPart db es
  executions-IsPart db (polls c locked w lease answer_lost ∷ es) =
      skip_all (dispatched db (c, claims locked w lease))
        (executions-IsPart (step backoff db (c, claims locked w lease)) es)
  executions-IsPart db (polls c locked w lease arrived ∷ es) =
      let s : Clock × Call = (c, claims locked w lease) in
      arrived-IsPart (claim c locked w lease db).0 (executions cfg backoff (step backoff db s) es)
        (dispatches backoff (step backoff db s) (all_calls es))
        (executions-IsPart (step backoff db s) es)
  executions-IsPart db (calls s ∷ es) =
      skip_all (dispatched db s) (executions-IsPart (step backoff db s) es)

  -- No attempt of a job is executed twice, by one worker or by two. From well-formed tables, whatever
  -- requests and answers the network loses, and whatever other calls of the store come in between,
  -- the attempts of one job that workers execute have rising numbers, and there are at most as many as its
  -- budget leaves.
  pub executions_lem :
      (db : Db) (es : List Event) (i : ℕ) (j : Job)
      → IsWellFormed db
      → find (has_id i) db.jobs ≡ some j
      → Rising (executions cfg backoff db es)
        × (count_of i (executions cfg backoff db es) + j.attempts ≤ j.max_attempts)
  executions_lem db es i j v s =
      let part = executions-IsPart db es in
      (
        part-Rising part (dispatches-Rising backoff db (all_calls es) v),
        omega (arith, part_count i part, dispatches_budget backoff db (all_calls es) i j v s),
      )
