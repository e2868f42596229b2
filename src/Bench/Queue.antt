-- ===== src/Bench/Queue.antt =====
-- cmd/queue-bench: what the benchmark reads of GET /stats and GET /workers (main.go and claim.go).
use jobqueue.Common.{
  ltb, if◌then◌else◌, length, select, Text, text, text_eq, has_prefix, ℕ, suc, ◌+◌, ◌≤◌, ◌≡◌, refl,
  sym, ap, ◌∙◌, ◌↔◌, ◌⊎◌, inl, inr, Bool, not, ◌&&◌, Option, none, some, List, [], ◌∷◌, arith,
}
use jobqueue.Jobs.{
  status_text, status_eq, Status, Job, pending, running, completed, failed, canceled,
}
use jobqueue.Store.{Db}
use jobqueue.Store.Reads.{all_statuses, Stats, stats, stats_lem}
use jobqueue.Worker.Client.{Response}
use jobqueue.Bench.Http.{do_call, BenchError}

-- The decoded body of GET /stats. A key that is missing reads as 0.
pub record StatsView : Type 0 where
  pub jobs : Text → ℕ
  pub workers_alive : ℕ

unfoldable pub terminal_of : StatsView → ℕ
terminal_of s = s.jobs (text "COMPLETED") + s.jobs (text "FAILED") + s.jobs (text "CANCELED")

unfoldable pub terminal_count : Text ⊎ Response StatsView → BenchError ⊎ ℕ
unfolding do_call terminal_of
terminal_count answer = elim (do_call answer) [ inl e ↦ inl e | inr s ↦ inr (terminal_of s) ]

pub data QueueError : Type 0 where
  unreadable : BenchError → QueueError
  backlog : ℕ → QueueError

abbrev pub check_backlog : ℕ → Option QueueError
check_backlog n = if ltb 0 n then some (backlog n) else none

-- `none` is the nil error.
unfoldable pub require_empty_queue : Text ⊎ Response StatsView → Option QueueError
unfolding do_call
require_empty_queue answer = elim (do_call answer) [
  | inl e ↦ some (unreadable e)
  | inr s ↦ check_backlog (s.jobs (text "PENDING") + s.jobs (text "RUNNING"))
]

unfoldable pub alive_workers : Text ⊎ Response StatsView → BenchError ⊎ ℕ
unfolding do_call
alive_workers answer = elim (do_call answer) [ inl e ↦ inl e | inr s ↦ inr s.workers_alive ]

-- The two fields of a worker that the benchmark reads.
pub record WorkerView : Type 0 where
  pub id : Text
  pub alive : Bool

abbrev pub claimer_prefix : Text
claimer_prefix = text "bench-claimer-"

unfoldable pub is_foreign : WorkerView → Bool
unfolding has_prefix
is_foreign w = w.alive && not (has_prefix w.id claimer_prefix)

unfoldable pub foreign_alive_workers : Text ⊎ Response (List WorkerView) → BenchError ⊎ ℕ
unfolding do_call is_foreign
foreign_alive_workers answer = elim (do_call answer) [
  | inl e ↦ inl e
  | inr ws ↦ inr (length (select is_foreign ws))
]

-- What the client decodes of the counts of the store.
abbrev pub named_count : Stats → Text → List Status → ℕ
unfolding text_eq status_text
named_count s key [] = 0
named_count s key (status ∷ others) =
    let rest = named_count s key others in
    if text_eq (status_text status) key then elim (s status) [ none ↦ 0 | some n ↦ n ] else rest

unfoldable pub stats_answer : Db → ℕ → Text ⊎ Response StatsView
unfolding stats
stats_answer db alive = inr (record {
  status = 200;
  error = [];
  code = [];
  raw = [];
  value =
      inr (record { jobs = λ key. named_count (stats db) key all_statuses; workers_alive = alive });
})

abbrev pub count_in : Status → List Job → ℕ
count_in s js = length (select (λ j. status_eq j.status s) js)

-- The jobs in one of the three last states.
abbrev pub count_done : List Job → ℕ
count_done js = count_in completed js + count_in failed js + count_in canceled js

abbrev pub count_open : List Job → ℕ
count_open js = count_in pending js + count_in running js

counts_all : (js : List Job) → count_done js + count_open js ≡ length js
counts_all [] = omega arith
counts_all (j ∷ js) = go j.status (counts_all js)
  where
    go :
        (s : Status)
        → count_done js + count_open js ≡ length js
        → count_done (record j { status = s } ∷ js) + count_open (record j { status = s } ∷ js)
          ≡ suc (length js)
    go pending h = omega (arith, h)
    go running h = omega (arith, h)
    go completed h = omega (arith, h)
    go failed h = omega (arith, h)
    go canceled h = omega (arith, h)

pub terminal_count_eq :
    (db : Db) (alive : ℕ) → terminal_count (stats_answer db alive) ≡ inr (count_done db.jobs)
unfolding terminal_count terminal_of do_call stats_answer named_count text_eq status_text
terminal_count_eq db alive =
    rw (stats_lem db completed, stats_lem db failed, stats_lem db canceled) refl

pub require_empty_queue_eq :
    (db : Db) (alive : ℕ)
    → require_empty_queue (stats_answer db alive) ≡ check_backlog (count_open db.jobs)
unfolding require_empty_queue do_call stats_answer named_count text_eq status_text
require_empty_queue_eq db alive = rw (stats_lem db pending, stats_lem db running) refl

-- The count that the drain phase watches is sound. On a queue that the check accepts, every job is done, so
-- the baseline is the number of jobs; and once `submitted` jobs more are in the table, the count has
-- gone up by at least that many exactly when the check would accept the queue again.
pub drained_lem :
    (db db' : Db) (alive alive' submitted baseline done : ℕ)
    → require_empty_queue (stats_answer db alive) ≡ none
    → length db'.jobs ≡ length db.jobs + submitted
    → terminal_count (stats_answer db alive) ≡ inr baseline
    → terminal_count (stats_answer db' alive') ≡ inr done
    → (baseline ≡ length db.jobs)
      × ((baseline + submitted ≤ done) ↔ (require_empty_queue (stats_answer db' alive') ≡ none))
drained_lem db db' alive alive' submitted baseline done empty more first later =
    let a : count_done db.jobs ≡ baseline = cc (terminal_count_eq db alive, first) in
    let b : count_done db'.jobs ≡ done = cc (terminal_count_eq db' alive', later) in
    let c : check_backlog (count_open db.jobs) ≡ none =
      sym (require_empty_queue_eq db alive) ∙ empty in
    let open_before : count_open db.jobs ≡ 0 = ground arith in
    let all = counts_all db.jobs in
    let all' = counts_all db'.jobs in
    (
      omega (arith, a, open_before, all),
      (
        (λ k.
            let none_open : count_open db'.jobs ≡ 0 = omega arith in
            require_empty_queue_eq db' alive' ∙ ap check_backlog none_open),
        (λ k.
            let e : check_backlog (count_open db'.jobs) ≡ none =
              sym (require_empty_queue_eq db' alive') ∙ k in
            let none_open : count_open db'.jobs ≡ 0 = ground arith in omega (arith, none_open)),
      ),
    )
