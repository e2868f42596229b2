-- ===== src/Bench/Median.antt =====
-- cmd/queue-bench/main.go: the figures over many jobs: `medianDurationMS`, `latencyPhase`, `formatExecMS`.
use jobqueue.Common.{
  ◌==◌, if◌then◌else◌, Bool-cases, length, All, pos_part, neg_part, ◌≤ℤ◌, ltb_ℤ, leb_ℤ, ℤ, pos,
  Text, text, print_int, ℕ, zero, suc, ◌+◌, ◌-◌, ◌*◌, ◌/◌, ◌≤◌, ◌<◌, ◌≡◌, refl, sym, ap, subst, ◌∙◌,
  ◌≢◌, ◌⊎◌, inl, inr, Bool, true, false, Option, none, some, List, [], ◌∷◌, ◌++◌, arith,
}
use jobqueue.Worker.Client.{Response}
use jobqueue.Bench.Http.{do_call, BenchError}

-- sort.Slice of int64s.
abbrev insert_int : ℤ → List ℤ → List ℤ
insert_int a [] = a ∷ []
insert_int a (b ∷ bs) = let rest = insert_int a bs in if leb_ℤ a b then a ∷ b ∷ bs else b ∷ rest

unfoldable pub sort_ints : List ℤ → List ℤ
sort_ints [] = []
sort_ints (a ∷ as') = insert_int a (sort_ints as')

-- ms[k], which panics out of range.
abbrev pub entry_at : ℕ → List ℤ → Option ℤ
entry_at k [] = none
entry_at zero (a ∷ as') = some a
entry_at (suc k) (a ∷ as') = entry_at k as'

-- The durations that are reported.
abbrev pub reported : List (Option ℤ) → List ℤ
reported [] = []
reported (none ∷ ds) = reported ds
reported (some d ∷ ds) = d ∷ reported ds

pub data MedianError : Type 0 where
  list_unread : BenchError → MedianError
  no_duration : MedianError

-- The limit that is asked for: at most the API's.
unfoldable pub sample_limit : ℤ → ℤ
sample_limit n = if ltb_ℤ (pos 500) n then pos 500 else n

abbrev pub middle : List ℤ → Option ℤ
unfolding sort_ints
middle ms = entry_at (length (sort_ints ms) / 2) (sort_ints ms)

abbrev median_of : List ℤ → Option ℤ → MedianError ⊎ ℤ
median_of ms none = inl no_duration
median_of ms (some m) = inr m

-- The answer holds the duration of each job that is listed. An empty list of them is the error, and
-- else its middle is in range.
unfoldable pub median_duration_ms : Text ⊎ Response (List (Option ℤ)) → MedianError ⊎ ℤ
unfolding do_call middle
median_duration_ms answer = elim (do_call answer) [
  | inl e ↦ inl (list_unread e)
  | inr ds ↦ median_of (reported ds) (middle (reported ds))
]

-- The least, the middle and the greatest of the samples, by their indices.
unfoldable pub latency_figures : List ℤ → Option ℤ × Option ℤ × Option ℤ
unfolding sort_ints middle
latency_figures ms =
    (entry_at 0 (sort_ints ms), middle ms, entry_at (length (sort_ints ms) - 1) (sort_ints ms))

abbrev IsSorted : List ℤ → Type 0
IsSorted [] = Unit {0}
IsSorted (a ∷ as') = All (λ b. a ≤ℤ b) as' × IsSorted as'

insert_int-All : (P : ℤ → Type 0) (a : ℤ) (bs : List ℤ) → P a → All P bs → All P (insert_int a bs)
insert_int-All P a [] pa all = (pa, tt)
insert_int-All P a (b ∷ bs) pa all = elim (Bool-cases (leb_ℤ a b)) [
  | inl y ↦ rw y (pa, all)
  | inr n ↦ rw n (all.0, insert_int-All P a bs pa all.1)
]

All-weaken : (a b : ℤ) (cs : List ℤ) → a ≤ℤ b → All (λ c. b ≤ℤ c) cs → All (λ c. a ≤ℤ c) cs
All-weaken a b [] h all = tt
All-weaken a b (c ∷ cs) h all = (omega (arith, h, all.0), All-weaken a b cs h all.1)

insert_int-IsSorted : (a : ℤ) (bs : List ℤ) → IsSorted bs → IsSorted (insert_int a bs)
insert_int-IsSorted a [] h = (tt, tt)
insert_int-IsSorted a (b ∷ bs) h = elim (Bool-cases (leb_ℤ a b)) [
  | inl y ↦ let low : a ≤ℤ b = ground arith in rw y ((low, All-weaken a b bs low h.0), h)
  | inr n ↦
      let low : b ≤ℤ a = ground arith in
      rw n (insert_int-All (λ c. b ≤ℤ c) a bs low h.0, insert_int-IsSorted a bs h.1)
]

sort_ints-IsSorted : (as' : List ℤ) → IsSorted (sort_ints as')
unfolding sort_ints
sort_ints-IsSorted [] = tt
sort_ints-IsSorted (a ∷ as') = insert_int-IsSorted a (sort_ints as') (sort_ints-IsSorted as')

-- How many entries pass a test.
abbrev pub count_if : (ℤ → Bool) → List ℤ → ℕ
count_if p [] = 0
count_if p (a ∷ as') = (if p a then 1 else 0) + count_if p as'

count_if-insert_int :
    (p : ℤ → Bool) (a : ℤ) (bs : List ℤ)
    → count_if p (insert_int a bs) ≡ (if p a then 1 else 0) + count_if p bs
count_if-insert_int p a [] = refl
count_if-insert_int p a (b ∷ bs) = elim (Bool-cases (leb_ℤ a b)) [
  | inl y ↦ rw y refl
  | inr n ↦ rw n (omega (arith, count_if-insert_int p a bs))
]

count_if-sort_ints : (p : ℤ → Bool) (as' : List ℤ) → count_if p (sort_ints as') ≡ count_if p as'
unfolding sort_ints
count_if-sort_ints p [] = refl
count_if-sort_ints p (a ∷ as') =
    omega (arith, count_if-insert_int p a (sort_ints as'), count_if-sort_ints p as')

count_if_all : (as' : List ℤ) → count_if (λ _. true) as' ≡ length as'
count_if_all [] = refl
count_if_all (a ∷ as') = omega (arith, count_if_all as')

length-sort_ints : (as' : List ℤ) → length (sort_ints as') ≡ length as'
length-sort_ints as' =
    sym (count_if_all (sort_ints as')) ∙ count_if-sort_ints (λ _. true) as' ∙ count_if_all as'

none_below : (m : ℤ) (bs : List ℤ) → All (λ b. m ≤ℤ b) bs → count_if (λ x. ltb_ℤ x m) bs ≡ 0
none_below m [] h = refl
none_below m (b ∷ bs) h =
    let no_less : ltb_ℤ b m ≡ false = ground (arith, h.0) in
    rw no_less (omega (arith, none_below m bs h.1))

-- What an index of a sorted list says of the entry there.
entry_at-IsSorted :
    (k : ℕ) (as' : List ℤ) (m : ℤ)
    → IsSorted as'
    → entry_at k as' ≡ some m
    → (count_if (λ x. ltb_ℤ x m) as' ≤ k) × (k < count_if (λ x. leb_ℤ x m) as')
entry_at-IsSorted k [] m h e = absurd (cc e)
entry_at-IsSorted zero (a ∷ as') m h e =
    let same : a ≡ m = cc e in
    let all = subst (λ x. All (λ b. x ≤ℤ b) as') same h.0 in
    let below = none_below m as' all in rw same (ground (arith, below), ground arith)
entry_at-IsSorted (suc k) (a ∷ as') m h e =
    let (few, many) = entry_at-IsSorted k as' m h.1 e in
    let low : a ≤ℤ m = entry_low k as' h.0 e in (ground (arith, few), ground (arith, many, low))
  where
    entry_low : (k : ℕ) (bs : List ℤ) → All (λ b. a ≤ℤ b) bs → entry_at k bs ≡ some m → a ≤ℤ m
    entry_low k [] all e = absurd (cc e)
    entry_low zero (b ∷ bs) all e = subst (λ x. a ≤ℤ x) (cc e) all.0
    entry_low (suc k) (b ∷ bs) all e = entry_low k bs all.1 e

entry_at_in : (k : ℕ) (as' : List ℤ) → k < length as' → (m : ℤ) × (entry_at k as' ≡ some m)
entry_at_in k [] h = absurd (omega arith)
entry_at_in zero (a ∷ as') h = (a, refl)
entry_at_in (suc k) (a ∷ as') h = entry_at_in k as' (omega arith)

-- The middle entry: at least half of the list is at most it, and at most half is less.
abbrev pub IsMiddle : List ℤ → ℤ → Type 0
IsMiddle ms m =
    (2 * count_if (λ x. ltb_ℤ x m) ms ≤ length ms) × (length ms < 2 * count_if (λ x. leb_ℤ x m) ms)

middle-IsMiddle : (ms : List ℤ) (m : ℤ) → middle ms ≡ some m → IsMiddle ms m
unfolding middle
middle-IsMiddle ms m e =
    let (few, many) =
      entry_at-IsSorted (length (sort_ints ms) / 2) (sort_ints ms) m (sort_ints-IsSorted ms) e in
    let size = length-sort_ints ms in
    (
      omega (arith, few, size, count_if-sort_ints (λ x. ltb_ℤ x m) ms),
      omega (arith, many, size, count_if-sort_ints (λ x. leb_ℤ x m) ms),
    )

-- The median of an answer that arrives: with no reported duration it is the error; otherwise it is a
-- number such that at most half of the durations are less and more than half are at most it.
pub median_duration_ms_lem :
    (answer : Text ⊎ Response (List (Option ℤ))) (ds : List (Option ℤ))
    → do_call answer ≡ inr ds
    → (reported ds ≡ [] → median_duration_ms answer ≡ inl no_duration)
      × (reported ds ≢ []
          → (m : ℤ) × (median_duration_ms answer ≡ inr m) × IsMiddle (reported ds) m)
unfolding median_duration_ms middle
median_duration_ms_lem answer ds e =
    let read : median_duration_ms answer ≡ median_of (reported ds) (middle (reported ds)) =
      rw (e, median_duration_ms) refl in
    (
      (λ none_there. read ∙ rw none_there (unfold sort_ints in refl)),
      λ some_there.
          let ms = reported ds in
          let size = length-sort_ints ms in
          let inside : length (sort_ints ms) / 2 < length (sort_ints ms) = go ms some_there size in
          let (m, at) = entry_at_in (length (sort_ints ms) / 2) (sort_ints ms) inside in
          (m, read ∙ ap (median_of ms) at, middle-IsMiddle ms m at),
    )
  where
    go :
        (ms : List ℤ)
        → ms ≢ []
        → length (sort_ints ms) ≡ length ms
        → length (sort_ints ms) / 2 < length (sort_ints ms)
    go [] ne size = absurd (ne refl)
    go (a ∷ as') ne size = omega (arith, size)

unfoldable pub format_exec_ms : ℤ → Text
unfolding print_int
format_exec_ms ms =
    if pos_part ms + neg_part ms == 0
    then text "<1 ms (no-op payload; process spawn dominates)"
    else print_int ms ++ text " ms"
