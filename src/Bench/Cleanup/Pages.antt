-- ===== src/Bench/Cleanup/Pages.antt =====
-- The cleanup page by page.
use jobqueue.Common.{
  ==_iff, length, take, select, All, All-map, All-take, All-select, Text, text, text_eq, trim_space,
  to_upper, parse_int, print_nat, ℕ, zero, suc, ◌+◌, ◌^◌, ◌≤◌, ◌<◌, ◌≡◌, refl, sym, ap, subst, ◌∙◌,
  ◌⊎◌, inl, inr, Bool, true, some, List, [], ◌∷◌, map, arith,
}
use jobqueue.Jobs.{
  status_text, valid_status, Status, Job, pending, running, completed, failed, canceled,
}
use jobqueue.Jobs.Backoff.{BackoffConfig}
use jobqueue.Store.{find, has_id, is_pending, Db, Clock}
use jobqueue.Store.Rows.{find-All, find_test, All-mono, Descending}
use jobqueue.Store.Reads.{status_matches}
use jobqueue.Store.Pages.{list_slice}
use jobqueue.Api.{reply_with, Message}
use jobqueue.Api.Requests.{int_param}
use jobqueue.Api.Jobs.{job_reply, list_page, handle_list_jobs, handle_cancel}
use jobqueue.Api.Server.Paths.{path_id-print_nat}
use jobqueue.Bench.Http.{do_call, arrives_as, arrives, BenchError}
use jobqueue.Bench.Race.{count_pending}
use jobqueue.Bench.Run.{error_of_answer, and_then, checked}
use jobqueue.Bench.Cleanup.{
  pending_query, page_of, cleaning_after, cancel_each, cancel_from, cancel_pending, Cleaning,
  cleaned,
}
use jobqueue.Bench.Cleanup.Cancels.{HasIds, IsCancelable, IsTidy, cancel_one, Cancels}
use jobqueue.Store.Claim.Choice.{find_head, find_tail}

cancelable_id : (db : Db) (i : ℕ) → IsTidy db → IsCancelable db i → (0 < i) × (i < 2 ^ 63)
cancelable_id db i tidy (j, e, _) =
    let (low, high) = find-All (λ j. (0 < j.id) × (j.id < 2 ^ 63)) (has_id i) db.jobs e tidy.1 in
    let same : j.id ≡ i = (==_iff j.id i).0 (find_test (has_id i) db.jobs {a = j} e) in
    (omega (arith, low, same), omega (arith, high, same))

-- Whether the first of some jobs is PENDING.
abbrev FirstWaits : Db → List ℕ → Type 0
FirstWaits db [] = ⊥
FirstWaits db (i ∷ is) =
    (j : Job) × (find (has_id i) db.jobs ≡ some j) × (is_pending j.status ≡ true)

abbrev Swept : Db → List ℕ → (BenchError ⊎ Unit {0}) × Db → Type 0
Swept db is (answer, db') =
    (answer ≡ inr tt)
    × IsTidy db'
    × (count_pending db'.jobs ≤ count_pending db.jobs)
    × (FirstWaits db is → suc (count_pending db'.jobs) ≤ count_pending db.jobs)

module _ (render : Message → Text) (backoff : BackoffConfig) (clock : ℕ → Clock) where
  cancel_call :
      (k i : ℕ) (db : Db)
      → IsTidy db
      → IsCancelable db i
      → (db' : Db) × (checked render (handle_cancel (clock k) (print_nat i) db) ≡ (inr tt, db'))
        × Cancels db db' i
  unfolding checked handle_cancel error_of_answer arrives arrives_as do_call
  cancel_call k i db tidy soft =
      let (low, high) = cancelable_id db i tidy soft in
      let (j, db', e, effect) = cancel_one (clock k) i db tidy soft in
      let reply : handle_cancel (clock k) (print_nat i) db ≡ (job_reply 200 j, db') =
        rw (path_id-print_nat i low high, handle_cancel) (ap (reply_with (job_reply 200)) e) in
      (db', ap (checked render) reply, effect)

  cancel_each-Swept :
      (is : List ℕ) (k : ℕ) (db : Db)
      → IsTidy db
      → All (IsCancelable db) is
      → Swept db is (cancel_each render backoff clock is k db)
  unfolding cancel_each
  cancel_each-Swept [] k db tidy h = (refl, tidy, omega arith, λ f. absurd f)
  cancel_each-Swept (i ∷ is) k db tidy h =
      let (db1, e, effect) = cancel_call k i db tidy h.0 in
      let (done, tidy', less, _) =
        cancel_each-Swept is (k + 1) db1 effect.tidy
          (All-mono (IsCancelable db) (IsCancelable db1) effect.keeps is h.1) in
      subst
        (λ r.
          Swept db (i ∷ is) (and_then r λ _ db1. cancel_each render backoff clock is (k + 1) db1))
        (sym e)
        (
          done,
          tidy',
          omega (arith, less, effect.fewer),
          λ (j, s, y). omega (arith, less, effect.one_less j s y),
        )

status_matches_pending : (j : Job) → status_matches (text "PENDING") j ≡ is_pending j.status
unfolding text_eq status_text
status_matches_pending j = go j.status
  where
    go : (s : Status) → text_eq (status_text s) (text "PENDING") ≡ is_pending s
    go pending = refl
    go running = refl
    go completed = refl
    go failed = refl
    go canceled = refl

select_same :
    (p q : Job → Bool) (js : List Job) → ((j : Job) → p j ≡ q j) → select p js ≡ select q js
select_same p q [] h = refl
select_same p q (j ∷ js) h = rw (h j, select_same p q js h) refl

abbrev waiting : Db → List Job
waiting db = select (λ j. is_pending j.status) db.jobs

-- The page is the first 500 of the PENDING jobs.
pending_page :
    (render : Message → Text) (db : Db)
    → Descending db.next_id db.jobs
    → page_of render (handle_list_jobs pending_query db).0
      ≡ inr (map (λ j. j.id) (take 500 (waiting db)))
unfolding page_of arrives_as do_call handle_list_jobs list_page pending_query valid_status int_param
    parse_int text_eq status_text to_upper trim_space
pending_page render db d =
    ap (λ js. inr (map (λ j. j.id) js))
      (list_slice (text "PENDING") 500 0 db d (omega arith) (omega arith)
        ∙ ap (take 500) (
            select_same (status_matches (text "PENDING")) (λ j. is_pending j.status) db.jobs
              status_matches_pending))

Descending-stored :
    (n : ℕ) (js : List Job) → Descending n js → All (λ j. find (has_id j.id) js ≡ some j) js
Descending-stored n [] d = tt
Descending-stored n (k ∷ js) d = (
  find_head k js,
  All-mono (λ j. find (has_id j.id) js ≡ some j) (λ j. find (has_id j.id) (k ∷ js) ≡ some j)
      (λ j e. find_tail k js j d.1 e) js (Descending-stored k.id js d.1),
)

page_cancelable :
    (db : Db)
    → Descending db.next_id db.jobs
    → All
        (λ j. (is_pending j.status ≡ true) × (find (has_id j.id) db.jobs ≡ some j))
        (take 500 (waiting db))
page_cancelable db d =
    let stored = Descending-stored db.next_id db.jobs d in
    All-take (λ j. (is_pending j.status ≡ true) × (find (has_id j.id) db.jobs ≡ some j)) 500
      (waiting db)
      (All-select (λ j. find (has_id j.id) db.jobs ≡ some j) (λ j. is_pending j.status) db.jobs
        stored)

abbrev Cleaned : Cleaning × Db → Type 0
Cleaned (answer, db) = (answer ≡ cleaned) × (count_pending db.jobs ≡ 0)

module _ (render : Message → Text) (backoff : BackoffConfig) (clock : ℕ → Clock) where
  -- What follows the cancellations of a page.
  next_page :
      (fuel k : ℕ) (db : Db) (is : List ℕ) (r : (BenchError ⊎ Unit {0}) × Db)
      → count_pending db.jobs < suc fuel
      → FirstWaits db is
      → ((db1 : Db)
          → IsTidy db1
          → count_pending db1.jobs < fuel
          → Cleaned (cancel_from render backoff clock fuel k db1))
      → Swept db is r
      → Cleaned (cleaning_after r λ db1. cancel_from render backoff clock fuel k db1)
  next_page fuel k db is (inl e, db1) enough first goes (wrong, _, _, _) = absurd (cc wrong)
  next_page fuel k db is (inr u, db1) enough first goes (_, tidy, less, one_less) =
      goes db1 tidy (omega (arith, one_less first, enough))

  cancel_from-Cleaned :
      (fuel k : ℕ) (db : Db)
      → IsTidy db
      → count_pending db.jobs < fuel
      → Cleaned (cancel_from render backoff clock fuel k db)
  unfolding cancel_from
  cancel_from-Cleaned zero k db tidy enough = absurd (omega arith)
  cancel_from-Cleaned (suc fuel) k db tidy enough =
      rw (pending_page render db tidy.0, cancel_from)
        (go (λ m db1 t l. cancel_from-Cleaned fuel m db1 t l) (waiting db) refl
          (page_cancelable db tidy.0))
    where
      go :
          ((m : ℕ) (db1 : Db)
            → IsTidy db1
            → count_pending db1.jobs < fuel
            → Cleaned (cancel_from render backoff clock fuel m db1))
          → (js : List Job) → waiting db ≡ js
          → All
              (λ j. (is_pending j.status ≡ true) × (find (has_id j.id) db.jobs ≡ some j))
              (take 500 js)
          → Cleaned (elim (map (λ j. j.id) (take 500 js)) [
            | [] ↦ (cleaned, db)
            | i ∷ is ↦
                cleaning_after
                  (cancel_each render backoff clock (i ∷ is) k db)
                  λ db1. cancel_from render backoff clock fuel (k + length (i ∷ is)) db1
          ])
      go later [] e all = (refl, ap length e)
      go later (j ∷ js) e all =
          let is = map (λ j. j.id) (take 500 (j ∷ js)) in
          let soft : All (IsCancelable db) is =
            All-map (λ j. (is_pending j.status ≡ true) × (find (has_id j.id) db.jobs ≡ some j))
              (IsCancelable db) (λ j. j.id) (λ j (p, s). (j, s, inl p)) (take 500 (j ∷ js)) all in
          next_page fuel (k + length is) db is (cancel_each render backoff clock is k db) enough
            (j, all.0.1, all.0.0) (later (k + length is))
            (cancel_each-Swept render backoff clock is k db tidy soft)

  -- The cancellation of what is left comes to its end, page by page: on a table whose ids fall from an
  -- int64's largest to 1, with nobody else at work, more pages than there are PENDING jobs are
  -- enough, no answer is an error, and no job is PENDING behind it.
  pub cancel_pending_lem :
      (fuel : ℕ) (db : Db)
      → Descending db.next_id db.jobs
      → HasIds db.jobs
      → count_pending db.jobs < fuel
      → let r = cancel_pending render backoff clock fuel db in
        (r.0 ≡ cleaned) × (count_pending r.1.jobs ≡ 0)
  unfolding cancel_pending
  cancel_pending_lem fuel db d ids enough = cancel_from-Cleaned fuel 0 db (d, ids) enough
