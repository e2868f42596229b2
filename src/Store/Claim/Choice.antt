-- ===== src/Store/Claim/Choice.antt =====
-- Which job a claim takes.
use jobqueue.Common.{
  Bool-cases, Option-cases, All, ℕ, ◌≡◌, sym, ap, subst, ◌∙◌, ◌⊎◌, inl, inr, Bool, true, false,
  none, some, List, [], ◌∷◌, arith,
}
use jobqueue.Jobs.{Job}
use jobqueue.Store.{find, has_id}
use jobqueue.Store.Rows.{All-mono, Descending, Descending-find_lt}
use jobqueue.Store.Claim.{is_claimable, comes_first, next_claimable}

-- `j` comes before every other job that could be claimed.
abbrev pub IsFirst : ℕ → (ℕ → Bool) → Job → List Job → Type 0
IsFirst now locked j = All (λ k. is_claimable now locked k ≡ true → comes_first j k ≡ true)

abbrev pub NoneClaimable : ℕ → (ℕ → Bool) → List Job → Type 0
NoneClaimable now locked = All (λ k. is_claimable now locked k ≡ false)

-- The row of its id, claimable, and ahead of every other one in order of availability, then id.
pub record IsHead (now : ℕ) (locked : ℕ → Bool) (js : List Job) (j : Job) : Type 0 where
  pub stored : find (has_id j.id) js ≡ some j
  pub claimable : is_claimable now locked j ≡ true
  pub first : IsFirst now locked j js

comes_first_trans :
    (a b c : Job) → comes_first a b ≡ true → comes_first b c ≡ true → comes_first a c ≡ true
comes_first_trans a b c h k = ground arith

comes_first_total : (a b : Job) → comes_first a b ≡ false → comes_first b a ≡ true
comes_first_total a b h = ground arith

comes_first_refl : (a : Job) → comes_first a a ≡ true
comes_first_refl a = ground arith

pub find_head : (k : Job) (js : List Job) → find (has_id k.id) (k ∷ js) ≡ some k
unfolding find
find_head k js = ground arith

-- A row below the head has another id.
pub find_tail :
    (k : Job) (js : List Job) (j : Job)
    → Descending k.id js
    → find (has_id j.id) js ≡ some j
    → find (has_id j.id) (k ∷ js) ≡ some j
unfolding find
find_tail k js j d e = ground (arith, Descending-find_lt k.id j.id js {j = j} d e)

module _ (now : ℕ) (locked : ℕ → Bool) where
  IsFirst-weaken :
      (a b : Job) (js : List Job)
      → comes_first a b ≡ true
      → IsFirst now locked b js
      → IsFirst now locked a js
  IsFirst-weaken a b js h =
      All-mono (λ k. is_claimable now locked k ≡ true → comes_first b k ≡ true)
        (λ k. is_claimable now locked k ≡ true → comes_first a k ≡ true)
        (λ k first c. comes_first_trans a b k h (first c)) js

  NoneClaimable-IsFirst :
      (j : Job) (js : List Job) → NoneClaimable now locked js → IsFirst now locked j js
  NoneClaimable-IsFirst j =
      All-mono (λ k. is_claimable now locked k ≡ false)
        (λ k. is_claimable now locked k ≡ true → comes_first j k ≡ true)
        (λ k n c. absurd (cc (n, c)))

  pub next_claimable-none :
      (js : List Job) → next_claimable now locked js ≡ none → NoneClaimable now locked js
  unfolding next_claimable
  next_claimable-none [] h = tt
  next_claimable-none (j ∷ js) h = ground (arith, next_claimable-none js)

  -- The job picked is the head of the list, ahead of what the rest has, or the pick of the rest.
  abbrev Pick : Job → List Job → Job → Type 0
  Pick k js j =
      ((is_claimable now locked k ≡ true)
        × (j ≡ k)
        × ((next_claimable now locked js ≡ none)
            ⊎ ((m : Job) × (next_claimable now locked js ≡ some m) × (comes_first k m ≡ true))))
      ⊎ ((next_claimable now locked js ≡ some j)
          × (is_claimable now locked k ≡ true → comes_first k j ≡ false))

  next_claimable-Pick :
      (k : Job) (js : List Job) (j : Job)
      → next_claimable now locked (k ∷ js) ≡ some j
      → Pick k js j
  unfolding next_claimable
  next_claimable-Pick k js j h = elim (Bool-cases (is_claimable now locked k)) [
    | inl c ↦ elim (Option-cases (next_claimable now locked js)) [
      | inl n ↦ inl (c, ground arith, inl n)
      | inr (m, e) ↦ elim (Bool-cases (comes_first k m)) [
        | inl b ↦ inl (c, ground arith, inr (m, e, b))
        | inr b ↦
            let same : m ≡ j = ground arith in
            inr (e ∙ ap some same, λ _. subst (λ x. comes_first k x ≡ false) same b)
      ]
    ]
    | inr c ↦ inr (ground arith, λ d. absurd (cc (c, d)))
  ]

  next_claimable_claimable :
      (js : List Job) (j : Job)
      → next_claimable now locked js ≡ some j
      → is_claimable now locked j ≡ true
  next_claimable_claimable [] j h = absurd (unfold next_claimable in cc h)
  next_claimable_claimable (k ∷ js) j h = elim (next_claimable-Pick k js j h) [
    | inl (c, e, _) ↦ subst (λ x. is_claimable now locked x ≡ true) (sym e) c
    | inr (e, _) ↦ next_claimable_claimable js j e
  ]

  next_claimable-IsFirst :
      (js : List Job) (j : Job) → next_claimable now locked js ≡ some j → IsFirst now locked j js
  next_claimable-IsFirst [] j h = tt
  next_claimable-IsFirst (k ∷ js) j h = elim (next_claimable-Pick k js j h) [
    | inl (c, e, inl n) ↦
        subst (λ x. IsFirst now locked x (k ∷ js)) (sym e)
          (λ _. comes_first_refl k, NoneClaimable-IsFirst k js (next_claimable-none js n))
    | inl (c, e, inr (m, f, b)) ↦
        subst (λ x. IsFirst now locked x (k ∷ js)) (sym e)
          (λ _. comes_first_refl k, IsFirst-weaken k m js b (next_claimable-IsFirst js m f))
    | inr (e, b) ↦ (λ c. comes_first_total k j (b c), next_claimable-IsFirst js j e)
  ]

  next_claimable_stored :
      (n : ℕ) (js : List Job) (j : Job)
      → Descending n js
      → next_claimable now locked js ≡ some j
      → find (has_id j.id) js ≡ some j
  next_claimable_stored n [] j d h = absurd (unfold next_claimable in cc h)
  next_claimable_stored n (k ∷ js) j d h = elim (next_claimable-Pick k js j h) [
    | inl (c, e, _) ↦ subst (λ x. find (has_id x.id) (k ∷ js) ≡ some x) (sym e) (find_head k js)
    | inr (e, _) ↦ find_tail k js j d.1 (next_claimable_stored k.id js j d.1 e)
  ]

  -- The claim takes the head of the queue.
  pub next_claimable-IsHead :
      (n : ℕ) (js : List Job) (j : Job)
      → Descending n js
      → next_claimable now locked js ≡ some j
      → IsHead now locked js j
  next_claimable-IsHead n js j d h = record {
    stored = next_claimable_stored n js j d h;
    claimable = next_claimable_claimable js j h;
    first = next_claimable-IsFirst js j h;
  }
