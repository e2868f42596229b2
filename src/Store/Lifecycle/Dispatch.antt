-- ===== src/Store/Lifecycle/Dispatch.antt =====
-- The attempts that a run of the store hands out.
use jobqueue.Common.{
  ◌==◌, if◌then◌else◌, Bool-cases, some_injective, All, ℤ, Text, ℕ, suc, ◌+◌, ◌≤◌, ◌<◌, ◌≡◌, refl,
  sym, ap, ◌∙◌, ◌⊎◌, inl, inr, Bool, some, List, [], ◌∷◌, ◌++◌, arith,
}
use jobqueue.Jobs.{Job, Result, ok, err}
use jobqueue.Jobs.Backoff.{BackoffConfig}
use jobqueue.Store.{find, has_id, Db, Clock}
use jobqueue.Store.Rows.{find-All, All-mono}
use jobqueue.Store.Claim.{claim_row, claim}
use jobqueue.Store.Claim.Outcome.{Promises, claim-Promises}
use jobqueue.Store.Machine.{
  step, Call, creates, claims, renews, completes, fails, cancels, reaps, registers, beats,
}
use jobqueue.Store.Invariant.{IsSound, IsWellFormed}
use jobqueue.Store.Lifecycle.{Edge, Moves, stay, dispatch, extend, finish, retry, give_up, withdraw}
use jobqueue.Store.Lifecycle.Steps.{step-Follows}
use jobqueue.Store.Invariant.Runs.{step-IsWellFormed}

-- The dispatch of a call: the job and the number of the attempt, if it is a claim that succeeds.
abbrev pub handed : Result Job → List (ℕ × ℕ)
handed (ok j) = (j.id, j.attempts) ∷ []
handed (err e) = []

unfoldable pub dispatched : Db → Clock × Call → List (ℕ × ℕ)
dispatched db (c, claims locked w lease) = handed (claim c locked w lease db).0
dispatched db _ = []

-- The attempts of a job that are still in the log rise.
abbrev pub Rising : List (ℕ × ℕ) → Type 0
Rising [] = Unit {0}
Rising (d ∷ ds) = All (λ e. e.0 ≡ d.0 → d.1 < e.1) ds × Rising ds

abbrev pub count_of : ℕ → List (ℕ × ℕ) → ℕ
count_of i [] = 0
count_of i (d ∷ ds) = if d.0 == i then suc (count_of i ds) else count_of i ds

module _ (backoff : BackoffConfig) where
  -- Everything that a run hands out, in order.
  unfoldable pub dispatches : Db → List (Clock × Call) → List (ℕ × ℕ)
  unfolding dispatched
  dispatches db [] = []
  dispatches db (s ∷ ss) = dispatched db s ++ dispatches (step backoff db s) ss

  -- A dispatch numbers the row's attempts, which it has raised by one.
  record IsDispatch (db : Db) (s : Clock × Call) (i : ℕ) : Type 0 where
    before : Job
    after : Job
    was : find (has_id i) db.jobs ≡ some before
    is : find (has_id i) (step backoff db s).jobs ≡ some after
    raised : after.attempts ≡ before.attempts + 1
    entry : dispatched db s ≡ (i, after.attempts) ∷ []

  abbrev Dispatches : Db → Clock × Call → Type 0
  Dispatches db s = (dispatched db s ≡ []) ⊎ ((i : ℕ) × IsDispatch db s i)

  claim-Dispatches :
      (c : Clock) (locked : ℕ → Bool) (w : Text) (lease : ℤ) (db : Db) (r : Result Job × Db)
      → claim c locked w lease db ≡ r
      → Promises c locked w lease db r
      → Dispatches db (c, claims locked w lease)
  unfolding dispatched step claim_row
  claim-Dispatches c locked w lease db (ok k, db') e p = inr (
    p.0.id,
    record {
      before = p.0;
      after = k;
      was = p.1.stored;
      is = ap (λ (x : Result Job × Db). find (has_id p.0.id) x.1.jobs) e ∙ p.3;
      raised = ap (λ (x : Job). x.attempts) p.2;
      entry =
          ap (λ (x : Result Job × Db). handed x.0) e
          ∙ ap (λ (n : ℕ). (n, k.attempts) ∷ []) (ap (λ (x : Job). x.id) p.2);
    },
  )
  claim-Dispatches c locked w lease db (err x, db') e p = inl (rw e)

  step-Dispatches : (db : Db) (s : Clock × Call) → IsWellFormed db → Dispatches db s
  unfolding dispatched
  step-Dispatches db (c, claims locked w lease) v =
      claim-Dispatches c locked w lease db (claim c locked w lease db) refl
        (claim-Promises c locked w lease db v.ids)
  step-Dispatches db (c, creates type payload n) v = inl refl
  step-Dispatches db (c, renews i w lease) v = inl refl
  step-Dispatches db (c, completes i w res) v = inl refl
  step-Dispatches db (c, fails attempts i w res) v = inl refl
  step-Dispatches db (c, cancels i) v = inl refl
  step-Dispatches db (c, reaps locked batch) v = inl refl
  step-Dispatches db (c, registers w hostname) v = inl refl
  step-Dispatches db (c, beats w) v = inl refl

  Edge-attempts : (j k : Job) → Edge j k → j.attempts ≤ k.attempts
  Edge-attempts j k (stay e) = ground arith
  Edge-attempts j k (dispatch a b c d) = omega arith
  Edge-attempts j k (extend a b c d) = omega arith
  Edge-attempts j k (finish a b c d) = omega arith
  Edge-attempts j k (retry a b c d e) = omega arith
  Edge-attempts j k (give_up a b c d e) = omega arith
  Edge-attempts j k (withdraw a b c) = omega arith

  -- What the rest of a run hands out of a job has higher numbers than its row.
  dispatches_above :
      (db : Db) (ss : List (Clock × Call)) (i : ℕ) (j : Job)
      → IsWellFormed db
      → find (has_id i) db.jobs ≡ some j
      → All (λ e. e.0 ≡ i → j.attempts < e.1) (dispatches db ss)
  unfolding dispatches
  dispatches_above db [] i j v s = tt
  dispatches_above db (x ∷ xs) i j v s =
      let (k, e, m) = step-Follows backoff db x v i j s in
      let rest =
        All-mono (λ d. d.0 ≡ i → k.attempts < d.1) (λ d. d.0 ≡ i → j.attempts < d.1)
          (λ d h e. omega (arith, h e, Edge-attempts j k m.edge))
          (dispatches (step backoff db x) xs)
          (dispatches_above (step backoff db x) xs i k (step-IsWellFormed backoff db x v) e) in
      elim (step-Dispatches db x v) [
        | inl none_out ↦ rw none_out rest
        | inr (n, d) ↦ rw d.entry (
          (λ (h : n ≡ i).
              let same : d.before ≡ j =
                some_injective (sym d.was ∙ ap (λ n. find (has_id n) db.jobs) h ∙ s) in
              omega (arith, d.raised, ap (λ y. y.attempts) same)),
          rest,
        )
      ]

  -- Of any run from a well-formed database: no attempt of a job is handed out twice, and the numbers of
  -- the attempts handed out of one job rise.
  pub dispatches-Rising :
      (db : Db) (ss : List (Clock × Call)) → IsWellFormed db → Rising (dispatches db ss)
  unfolding dispatches
  dispatches-Rising db [] v = tt
  dispatches-Rising db (x ∷ xs) v =
      let v' = step-IsWellFormed backoff db x v in
      let rest = dispatches-Rising (step backoff db x) xs v' in
      elim (step-Dispatches db x v) [
        | inl none_out ↦ rw none_out rest
        | inr (n, d) ↦ rw d.entry (dispatches_above (step backoff db x) xs n d.after v' d.is, rest)
      ]

  dispatched_count :
      (db : Db) (s : Clock × Call) (i : ℕ) (j k : Job)
      → IsWellFormed db
      → find (has_id i) db.jobs ≡ some j
      → find (has_id i) (step backoff db s).jobs ≡ some k
      → Moves j k
      → count_of i (dispatched db s) + j.attempts ≤ k.attempts
  dispatched_count db s i j k v was is m = elim (step-Dispatches db s v) [
    | inl none_out ↦ rw none_out (omega (arith, Edge-attempts j k m.edge))
    | inr (n, d) ↦ elim (Bool-cases (n == i)) [
      | inl y ↦
          let h : n ≡ i = ground arith in
          let b : d.before ≡ j =
            some_injective (sym d.was ∙ ap (λ n. find (has_id n) db.jobs) h ∙ was) in
          let a : d.after ≡ k =
            some_injective (sym d.is ∙ ap (λ n. find (has_id n) (step backoff db s).jobs) h ∙ is) in
          rw (d.entry, y)
            (omega
              (arith, d.raised, ap (λ (x : Job). x.attempts) a, ap (λ (x : Job). x.attempts) b))
      | inr y ↦ rw (d.entry, y) (omega (arith, Edge-attempts j k m.edge))
    ]
  ]

  count_of-append :
      (i : ℕ) (ds es : List (ℕ × ℕ)) → count_of i (ds ++ es) ≡ count_of i ds + count_of i es
  count_of-append i [] es = omega arith
  count_of-append i (d ∷ ds) es = ground (arith, count_of-append i ds es)

  -- From any well-formed database a run hands a stored job out at most as often as its budget has
  -- attempts left.
  pub dispatches_budget :
      (db : Db) (ss : List (Clock × Call)) (i : ℕ) (j : Job)
      → IsWellFormed db
      → find (has_id i) db.jobs ≡ some j
      → count_of i (dispatches db ss) + j.attempts ≤ j.max_attempts
  unfolding dispatches
  dispatches_budget db [] i j v s =
      omega (arith, (find-All IsSound (has_id i) db.jobs s v.rows).budget)
  dispatches_budget db (x ∷ xs) i j v s =
      let (k, e, m) = step-Follows backoff db x v i j s in
      omega (
        arith,
        count_of-append i (dispatched db x) (dispatches (step backoff db x) xs),
        dispatched_count db x i j k v s e m,
        dispatches_budget (step backoff db x) xs i k (step-IsWellFormed backoff db x v) e,
        m.same_budget,
      )
