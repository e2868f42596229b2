-- ===== src/Store/Rows.antt =====
-- What SELECT and UPDATE do to a table: lemmas on `find` and `update`, and on the primary key.
use mathlib.Core.Option
use jobqueue.Common.{
  ==_iff, Bool-cases, All, ℕ, ◌≤◌, ◌<◌, ◌≡◌, refl, sym, subst, ◌∙◌, inl, inr, Bool, true, false,
  none, some, List, [], ◌∷◌, arith,
}
use jobqueue.Jobs.{Job}
use jobqueue.Store.{find, update_one, update, has_id}

module _ {A : Type 0} where
  pub find-All {κ} :
      (P : A → Type κ) (p : A → Bool) (rows : List A) {a : A}
      → find p rows ≡ some a
      → All P rows
      → P a
  unfolding find
  find-All P p [] h all = absurd (cc h)
  find-All P p (b ∷ rows) h all = elim (Bool-cases (p b)) [
    | inl e ↦ subst P (cc (rw e at h)) all.0
    | inr e ↦ find-All P p rows (rw e at h) all.1
  ]

  pub find_test : (p : A → Bool) (rows : List A) {a : A} → find p rows ≡ some a → p a ≡ true
  unfolding find
  find_test p [] h = absurd (cc h)
  find_test p (b ∷ rows) {a} h = ground (arith, find_test p rows {a = a})

  pub update-All {κ} :
      (P : A → Type κ) (p : A → Bool) (f : A → A)
      → ((a : A) → p a ≡ true → P a → P (f a))
      → (rows : List A) → All P rows
      → All P (update p f rows)
  unfolding update
  update-All P p f keep [] all = tt
  update-All P p f keep (a ∷ rows) all = elim (Bool-cases (p a)) [
    | inl e ↦ rw e (keep a e all.0, update-All P p f keep rows all.1)
    | inr e ↦ rw e (all.0, update-All P p f keep rows all.1)
  ]

  -- The same, where what the SET keeps is known of each row.
  pub update_when-All {κ} :
      (P : A → Type κ) (p : A → Bool) (f : A → A) (rows : List A)
      → All (λ a. P a × (p a ≡ true → P (f a))) rows
      → All P (update p f rows)
  unfolding update
  update_when-All P p f [] all = tt
  update_when-All P p f (a ∷ rows) all = elim (Bool-cases (p a)) [
    | inl e ↦ rw e (all.0.1 e, update_when-All P p f rows all.1)
    | inr e ↦ rw e (all.0.0, update_when-All P p f rows all.1)
  ]

  pub update_each-All {κ} :
      (P : A → Type κ) (p : A → Bool) (f : A → A)
      → ((a : A) → P a → P (update_one p f a))
      → (rows : List A) → All P rows
      → All P (update p f rows)
  unfolding update
  update_each-All P p f keep [] all = tt
  update_each-All P p f keep (a ∷ rows) all = (keep a all.0, update_each-All P p f keep rows all.1)

  -- An UPDATE that matches no row changes nothing.
  pub update_of_none :
      (p : A → Bool) (f : A → A) (rows : List A) → find p rows ≡ none → update p f rows ≡ rows
  unfolding find update
  update_of_none p f [] h = refl
  update_of_none p f (a ∷ rows) h = ground (arith, update_of_none p f rows)

  -- A SELECT whose test the UPDATE leaves alone sees the updated row.
  pub find-update :
      (q p : A → Bool) (f : A → A)
      → ((a : A) → q (update_one p f a) ≡ q a)
      → (rows : List A) → find q (update p f rows) ≡ Option.map (update_one p f) (find q rows)
  unfolding find update
  find-update q p f same [] = refl
  find-update q p f same (a ∷ rows) = ground (arith, same a, find-update q p f same rows)

  pub find-update_hit :
      (q p : A → Bool) (f : A → A)
      → ((a : A) → q (update_one p f a) ≡ q a)
      → (rows : List A) (a : A) → find q rows ≡ some a
      → p a ≡ true
      → find q (update p f rows) ≡ some (f a)
  find-update_hit q p f same rows a e h = rw (find-update q p f same rows, e, h)

  pub find-update_miss :
      (q p : A → Bool) (f : A → A)
      → ((a : A) → q (update_one p f a) ≡ q a)
      → ((a : A) → q a ≡ true → p a ≡ false)
      → (rows : List A) → find q (update p f rows) ≡ find q rows
  unfolding find update
  find-update_miss q p f same other [] = refl
  find-update_miss q p f same other (a ∷ rows) =
      ground (arith, same a, other a, find-update_miss q p f same other rows)

  pub All-both {κ κ'} :
      (P : A → Type κ) (Q : A → Type κ') (rows : List A)
      → All P rows
      → All Q rows
      → All (λ a. P a × Q a) rows
  All-both P Q [] h k = tt
  All-both P Q (a ∷ rows) h k = ((h.0, k.0), All-both P Q rows h.1 k.1)

  pub All-mono {κ κ'} :
      (P : A → Type κ) (Q : A → Type κ')
      → ((a : A) → P a → Q a)
      → (rows : List A) → All P rows
      → All Q rows
  All-mono P Q f [] h = tt
  All-mono P Q f (a ∷ rows) h = (f a h.0, All-mono P Q f rows h.1)

-- The primary key: the ids fall along the list, from the sequence's next value on.
abbrev pub Descending : ℕ → List Job → Type 0
Descending n [] = Unit {0}
Descending n (j ∷ js) = (j.id < n) × Descending j.id js

pub Descending-mono : (m n : ℕ) (js : List Job) → m ≤ n → Descending m js → Descending n js
Descending-mono m n [] h d = tt
Descending-mono m n (j ∷ js) h d = (omega arith, d.1)

pub update-Descending :
    (p : Job → Bool) (f : Job → Job)
    → ((j : Job) → (f j).id ≡ j.id)
    → (n : ℕ) (js : List Job) → Descending n js
    → Descending n (update p f js)
unfolding update
update-Descending p f same n [] d = tt
update-Descending p f same n (j ∷ js) d =
    let e : (update_one p f j).id ≡ j.id = ground (arith, same j) in
    rw e (d.0, update-Descending p f same j.id js d.1)

pub Descending-find_lt :
    (n i : ℕ) (js : List Job) {j : Job} → Descending n js → find (has_id i) js ≡ some j → i < n
unfolding find
Descending-find_lt n i [] d h = absurd (cc h)
Descending-find_lt n i (k ∷ js) {j} d h = ground (arith, Descending-find_lt k.id i js {j = j} d.1)

abbrev SameId : Job → Job → Type 0
SameId j k = k.id ≡ j.id → k ≡ j

pub Descending-below : (n : ℕ) (js : List Job) → Descending n js → All (λ k. k.id < n) js
Descending-below n [] d = tt
Descending-below n (j ∷ js) d = (
  d.0,
  All-mono (λ k. k.id < j.id) (λ k. k.id < n) (λ k h. omega (arith, d.0)) js
      (Descending-below j.id js d.1),
)

-- Two rows with one id are one row.
pub Descending-unique :
    (n : ℕ) (js : List Job) → Descending n js → All (λ j. All (λ k. k.id ≡ j.id → k ≡ j) js) js
Descending-unique n [] d = tt
Descending-unique n (j ∷ js) d =
    let below = Descending-below j.id js d.1 in
    (
      (
        (λ _. refl),
        All-mono (λ k. k.id < j.id) (SameId j) (λ k h e. absurd (omega arith)) js below,
      ),
      All-mono (λ k. (k.id < j.id) × All (SameId k) js) (λ k. All (SameId k) (j ∷ js))
          (λ k h. ((λ e. absurd (omega (arith, h.0))), h.1)) js
          (All-both (λ k. k.id < j.id) (λ k. All (SameId k) js) js below
            (Descending-unique j.id js d.1)),
    )

-- The row that a SELECT by id reads is the only one of that id.
pub find_id_unique :
    (n i : ℕ) (js : List Job) (j : Job)
    → Descending n js
    → find (has_id i) js ≡ some j
    → All (λ k. k.id ≡ i → k ≡ j) js
find_id_unique n i js j d e =
    let same : j.id ≡ i = (==_iff j.id i).0 (find_test (has_id i) js {a = j} e) in
    All-mono (λ k. k.id ≡ j.id → k ≡ j) (λ k. k.id ≡ i → k ≡ j) (λ k u h. u (h ∙ sym same)) js
      (find-All (λ j. All (λ k. k.id ≡ j.id → k ≡ j) js) (has_id i) js e (Descending-unique n js d))

-- A table whose rows keep their ids under an UPDATE, seen through a primary key.
module _ (p : Job → Bool) (f : Job → Job) (same : (j : Job) → (f j).id ≡ j.id) where
  has_id-update_one : (i : ℕ) (j : Job) → has_id i (update_one p f j) ≡ has_id i j
  has_id-update_one i j = ground (arith, same j)

  pub find_id-update :
      (i : ℕ) (js : List Job)
      → find (has_id i) (update p f js) ≡ Option.map (update_one p f) (find (has_id i) js)
  find_id-update i js = find-update (has_id i) p f (has_id-update_one i) js

  pub find_id-update_hit :
      (i : ℕ) (js : List Job) (j : Job)
      → find (has_id i) js ≡ some j
      → p j ≡ true
      → find (has_id i) (update p f js) ≡ some (f j)
  find_id-update_hit i js j e h = find-update_hit (has_id i) p f (has_id-update_one i) js j e h

  pub find_id-update_miss :
      (i : ℕ)
      → ((j : Job) → has_id i j ≡ true → p j ≡ false)
      → (js : List Job) → find (has_id i) (update p f js) ≡ find (has_id i) js
  find_id-update_miss i other js = find-update_miss (has_id i) p f (has_id-update_one i) other js
