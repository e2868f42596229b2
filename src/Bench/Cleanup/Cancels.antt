-- ===== src/Bench/Cleanup/Cancels.antt =====
-- What the cancellations of the cleanup leave.
use jobqueue.Common.{
  ◌==◌, Bool-cases, some_injective, All, ℕ, suc, ◌^◌, ◌≤◌, ◌<◌, ◌≡◌, refl, sym, ap, subst, ◌∙◌, ◌⊎◌,
  inl, inr, true, false, none, some, List, [], ◌∷◌, arith,
}
use jobqueue.Jobs.{status_eq, Job, canceled, ok}
use jobqueue.Store.{find, update, has_id, is_pending, Db, Clock}
use jobqueue.Store.Rows.{
  find_test, update-All, update_of_none, Descending, update-Descending, find_id-update_hit,
  find_id-update_miss,
}
use jobqueue.Store.Report.{cancel_row, cancel}
use jobqueue.Store.Report.Cancel.{pending_id, cancel_answer}
use jobqueue.Bench.Race.{count_pending, below_find, count_pending-update}

-- Ids as the database gives them.
abbrev pub HasIds : List Job → Type 0
HasIds = All (λ j. (0 < j.id) × (j.id < 2 ^ 63))

-- A job that a cancellation is no error for.
abbrev pub IsCancelable : Db → ℕ → Type 0
IsCancelable db i =
    (j : Job) × (find (has_id i) db.jobs ≡ some j)
    × ((is_pending j.status ≡ true) ⊎ (status_eq j.status canceled ≡ true))

abbrev pub IsTidy : Db → Type 0
IsTidy db = Descending db.next_id db.jobs × HasIds db.jobs

-- One cancellation.
pub record Cancels (db db' : Db) (i : ℕ) : Type 0 where
  pub tidy : IsTidy db'
  pub keeps : (k : ℕ) → IsCancelable db k → IsCancelable db' k
  pub fewer : count_pending db'.jobs ≤ count_pending db.jobs
  pub one_less :
      (j : Job)
      → find (has_id i) db.jobs ≡ some j
      → is_pending j.status ≡ true
      → suc (count_pending db'.jobs) ≤ count_pending db.jobs

pending_id_alone :
    (n i : ℕ) (f : Job → Job) (js : List Job) (j : Job)
    → Descending n js
    → find (has_id i) js ≡ some j
    → is_pending j.status ≡ true
    → update (pending_id i) f js ≡ update (has_id i) f js
unfolding find update
pending_id_alone n i f [] j d e p = refl
pending_id_alone n i f (k ∷ js) j d e p = elim (Bool-cases (has_id i k)) [
  | inl y ↦
      let same : k ≡ j = some_injective (rw y at e) in
      let missing = below_find k.id i js d.1 (ground arith) in
      let both : update (pending_id i) f js ≡ update (has_id i) f js =
        update_of_none (pending_id i) f js (no_pending js missing)
        ∙ sym (update_of_none (has_id i) f js missing) in
      rw (y, same, p, both) refl
  | inr m ↦ rw m (ap (◌∷◌ k) (pending_id_alone k.id i f js j d.1 (rw m at e) p))
]
  where
    no_pending : (js : List Job) → find (has_id i) js ≡ none → find (pending_id i) js ≡ none
    no_pending [] h = refl
    no_pending (k ∷ js) h = ground (arith, no_pending js)

module _ (c : Clock) (i : ℕ) (db : Db) (tidy : IsTidy db) where
  cancel_waiting :
      (j : Job)
      → find (has_id i) db.jobs ≡ some j
      → is_pending j.status ≡ true
      → Cancels db (record db { jobs = update (pending_id i) (cancel_row c) db.jobs }) i
  unfolding cancel_row
  cancel_waiting j e y =
      let alone = pending_id_alone db.next_id i (cancel_row c) db.jobs j tidy.0 e y in
      let less : count_pending db.jobs
          ≡ suc (count_pending (update (pending_id i) (cancel_row c) db.jobs)) =
        count_pending-update db.next_id i (cancel_row c) db.jobs j tidy.0 e y refl
        ∙ ap (λ js. suc (count_pending js)) (sym alone) in
      let hit : pending_id i j ≡ true = ground (arith, find_test (has_id i) db.jobs {a = j} e, y) in
      record {
        tidy = (
          update-Descending (pending_id i) (cancel_row c) (λ k. refl) db.next_id db.jobs tidy.0,
          update-All (λ k. (0 < k.id) × (k.id < 2 ^ 63)) (pending_id i) (cancel_row c) (λ k _ h. h)
              db.jobs tidy.1,
        );
        keeps = λ k (m, s, soft). elim (Bool-cases (i == k)) [
          | inl same ↦
              let at : i ≡ k = ground arith in
              (
                cancel_row c j,
                subst
                    (λ x.
                      find (has_id x) (update (pending_id i) (cancel_row c) db.jobs)
                      ≡ some (cancel_row c j))
                    at
                    (find_id-update_hit (pending_id i) (cancel_row c) (λ l. refl) i db.jobs j e
                      hit),
                inr refl,
              )
          | inr other ↦ (
            m,
            find_id-update_miss (pending_id i) (cancel_row c) (λ l. refl) k (λ l h. ground arith)
                  db.jobs
                ∙ s,
            soft,
          )
        ];
        fewer = omega (arith, less);
        one_less = λ _ _ _. omega (arith, less);
      }

  cancel_done :
      (j : Job) → find (has_id i) db.jobs ≡ some j → is_pending j.status ≡ false → Cancels db db i
  cancel_done j e n = record {
    tidy = tidy;
    keeps = λ k h. h;
    fewer = omega arith;
    one_less = λ m s y.
        let same : j ≡ m = cc (e, s) in absurd (cc (n, y, ap (λ x. is_pending x.status) same));
  }

  pub cancel_one :
      IsCancelable db i → (j : Job) × (db' : Db) × (cancel c i db ≡ (ok j, db')) × Cancels db db' i
  cancel_one (j, e, soft) =
      let outcome = cancel_answer c i db j tidy.0 e in
      elim (Bool-cases (is_pending j.status)) [
        | inl y ↦ (cancel_row c j, _, rw y at outcome, cancel_waiting j e y)
        | inr n ↦ elim soft [
          | inl y ↦ absurd (cc (n, y))
          | inr done ↦ (j, db, rw done at (rw n at outcome), cancel_done j e n)
        ]
      ]
