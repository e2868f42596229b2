-- ===== src/Store/Reap/Found.antt =====
-- The rows that a sweep finds, and their readings.
use jobqueue.Common.{
  ◌==◌, Bool-cases, length, take, select, All, length-take, All-map, All-take, All-select, take_all,
  length-map, insert_by, sort_by, sort_by-All, length-sort_by, ℕ, ◌≤◌, ◌≡◌, refl, sym, ap, subst,
  ◌∙◌, inl, inr, Bool, true, false, ◌||◌, some, List, [], ◌∷◌, map, arith,
}
use jobqueue.Jobs.{Job}
use jobqueue.Store.{find, has_id}
use jobqueue.Store.Rows.{All-mono, Descending, Descending-unique, find_id_unique}
use jobqueue.Store.Reap.{is_expired, lease_key, expired_of, expired_jobs, Expired}

-- What the sweep read of an id is what the row of that id holds.
abbrev pub Reads : Expired → Job → Type 0
Reads e k = k.id ≡ e.id → e ≡ expired_of k

abbrev pub contains_id : ℕ → List Expired → Bool
contains_id i [] = false
contains_id i (e ∷ es) = e.id == i || contains_id i es

contains_id-All {κ} :
    (X : Type κ) (i : ℕ) (es : List Expired)
    → All (λ e. e.id ≡ i → X) es
    → contains_id i es ≡ true
    → X
contains_id-All X i [] all h = absurd (cc h)
contains_id-All X i (e ∷ es) all h = elim (Bool-cases (e.id == i)) [
  | inl y ↦ all.0 (ground arith)
  | inr n ↦ contains_id-All X i es all.1 (ground arith)
]

abbrev has_job : ℕ → List Job → Bool
has_job i [] = false
has_job i (j ∷ js) = j.id == i || has_job i js

contains_id-map : (i : ℕ) (js : List Job) → contains_id i (map expired_of js) ≡ has_job i js
contains_id-map i [] = refl
contains_id-map i (j ∷ js) = ground (arith, contains_id-map i js)

has_job-insert_by :
    (i : ℕ) (key : Job → ℕ) (j : Job) (js : List Job)
    → has_job i (insert_by key j js) ≡ (j.id == i || has_job i js)
unfolding insert_by
has_job-insert_by i key j [] = refl
has_job-insert_by i key j (k ∷ js) = ground (arith, has_job-insert_by i key j js)

has_job-sort_by :
    (i : ℕ) (key : Job → ℕ) (js : List Job) → has_job i (sort_by key js) ≡ has_job i js
unfolding sort_by
has_job-sort_by i key [] = refl
has_job-sort_by i key (j ∷ js) =
    has_job-insert_by i key j (sort_by key js) ∙ ap (λ b. j.id == i || b) (has_job-sort_by i key js)

has_job-select :
    (p : Job → Bool) (i : ℕ) (js : List Job) (j : Job)
    → find (has_id i) js ≡ some j
    → p j ≡ true
    → has_job i (select p js) ≡ true
unfolding find
has_job-select p i [] j s x = absurd (cc s)
has_job-select p i (k ∷ js) j s x = elim (Bool-cases (k.id == i)) [
  | inl y ↦
      let same : k ≡ j = ground arith in
      let h : p k ≡ true = subst (λ y. p y ≡ true) (sym same) x in rw h (rw y)
  | inr n ↦ ground (arith, has_job-select p i js j)
]

module _ (now : ℕ) (locked : ℕ → Bool) (limit : ℕ) where
  found_All {κ κ'} :
      (P : Job → Type κ) (Q : Expired → Type κ')
      → ((j : Job) → is_expired now locked j ≡ true → P j → Q (expired_of j))
      → (js : List Job) → All P js
      → All Q (expired_jobs now locked limit js)
  unfolding expired_jobs
  found_All P Q h js all =
      let R = λ (j : Job). (is_expired now locked j ≡ true) × P j in
      let sel = select (is_expired now locked) js in
      All-map R Q expired_of (λ j r. h j r.0 r.1) (take limit (sort_by lease_key sel))
        (All-take R limit (sort_by lease_key sel)
          (sort_by-All R lease_key sel (All-select P (is_expired now locked) js all)))

  pub found-Reads :
      (n : ℕ) (js : List Job)
      → Descending n js
      → All (λ e. All (Reads e) js) (expired_jobs now locked limit js)
  found-Reads n js d =
      found_All (λ j. All (λ k. k.id ≡ j.id → k ≡ j) js) (λ e. All (Reads e) js)
        (λ j x same.
          All-mono (λ k. k.id ≡ j.id → k ≡ j) (Reads (expired_of j))
            (λ k s e. ap expired_of (sym (s e))) js same)
        js (Descending-unique n js d)

  -- Whatever is found has run out.
  pub found_expired :
      (n i : ℕ) (js : List Job) (j : Job)
      → Descending n js
      → find (has_id i) js ≡ some j
      → contains_id i (expired_jobs now locked limit js) ≡ true
      → is_expired now locked j ≡ true
  found_expired n i js j d s c =
      contains_id-All (is_expired now locked j ≡ true) i (expired_jobs now locked limit js)
        (found_All (λ k. k.id ≡ i → k ≡ j) (λ e. e.id ≡ i → is_expired now locked j ≡ true)
          (λ k x same h. subst (λ y. is_expired now locked y ≡ true) (same h) x) js
          (find_id_unique n i js j d s))
        c

  pub length-found : (js : List Job) → length (expired_jobs now locked limit js) ≤ limit
  unfolding expired_jobs
  length-found js =
      let sorted = sort_by lease_key (select (is_expired now locked) js) in
      omega (arith, length-map expired_of (take limit sorted), length-take limit sorted)

  -- A batch that holds all expired rows misses none.
  pub found_all :
      (i : ℕ) (js : List Job) (j : Job)
      → find (has_id i) js ≡ some j
      → is_expired now locked j ≡ true
      → length (select (is_expired now locked) js) ≤ limit
      → contains_id i (expired_jobs now locked limit js) ≡ true
  unfolding expired_jobs
  found_all i js j s x h =
      let sel = select (is_expired now locked) js in
      rw
        (
          take_all limit (sort_by lease_key sel) (rw (length-sort_by lease_key sel) h),
          contains_id-map i (sort_by lease_key sel),
          has_job-sort_by i lease_key sel,
        )
        (has_job-select (is_expired now locked) i js j s x)
