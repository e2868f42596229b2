-- ===== src/Bench/Tally.antt =====
-- cmd/queue-bench/claim.go: the records of claims, and the count of duplicates in `runClaim`.
use jobqueue.Common.{
  ◌==◌, if◌then◌else◌, Bool-cases, length, Text, ℕ, ◌+◌, ◌≤◌, ◌≡◌, refl, subst, inl, inr, Bool,
  false, ◌||◌, List, [], ◌∷◌, ◌++◌, map, arith,
}

-- A successful claim: the job, and the claimer.
pub record ClaimRecord : Type 0 where
  pub job_id : ℕ
  pub worker : Text

-- The map from claimed jobs to their claimers, one entry for each key.
abbrev pub Seen : Type 0
Seen = List ClaimRecord

unfoldable pub is_seen : ℕ → Seen → Bool
is_seen i [] = false
is_seen i (r ∷ rs) = r.job_id == i || is_seen i rs

-- seen[r.jobID] = r.worker.
unfoldable pub see : ClaimRecord → Seen → Seen
see r [] = r ∷ []
see r (s ∷ ss) = let rest = see r ss in if s.job_id == r.job_id then r ∷ ss else s ∷ rest

-- The loop of runClaim over the records of all levels: the map and the number of duplicates.
unfoldable pub tally : List ClaimRecord → Seen → ℕ → Seen × ℕ
unfolding is_seen see
tally [] seen dupes = (seen, dupes)
tally (r ∷ rs) seen dupes =
    tally rs (see r seen) (if is_seen r.job_id seen then dupes + 1 else dupes)

abbrev pub count_claims : List ClaimRecord → Seen × ℕ
unfolding tally
count_claims rs = tally rs [] 0

length-see :
    (r : ClaimRecord) (seen : Seen)
    → length (see r seen) ≡ (if is_seen r.job_id seen then length seen else length seen + 1)
unfolding see is_seen
length-see r [] = refl
length-see r (s ∷ ss) = ground (arith, length-see r ss)

is_seen-see :
    (i : ℕ) (r : ClaimRecord) (seen : Seen)
    → is_seen i (see r seen) ≡ (r.job_id == i || is_seen i seen)
unfolding see is_seen
is_seen-see i r [] = refl
is_seen-see i r (s ∷ ss) = ground (arith, is_seen-see i r ss)

-- No job has two entries.
abbrev pub IsMap : Seen → Type 0
IsMap [] = Unit {0}
IsMap (r ∷ rs) = (is_seen r.job_id rs ≡ false) × IsMap rs

see-IsMap : (r : ClaimRecord) (seen : Seen) → IsMap seen → IsMap (see r seen)
unfolding see is_seen
see-IsMap r [] h = (refl, tt)
see-IsMap r (s ∷ ss) h = elim (Bool-cases (s.job_id == r.job_id)) [
  | inl y ↦
      let e : s.job_id ≡ r.job_id = ground arith in
      rw y (subst (λ i. is_seen i ss ≡ false) e h.0, h.1)
  | inr n ↦ rw n (ground (arith, is_seen-see s.job_id r ss, h.0), see-IsMap r ss h.1)
]

-- What the loop keeps of the records read.
abbrev Counted : List ClaimRecord → Seen → ℕ → Seen × ℕ → Type 0
Counted rs seen dupes (after, n) =
    (length after + n ≡ length seen + dupes + length rs)
    × IsMap after
    × ((i : ℕ) → is_seen i after ≡ (is_seen i rs || is_seen i seen))

tally-Counted :
    (rs : List ClaimRecord) (seen : Seen) (dupes : ℕ)
    → IsMap seen
    → Counted rs seen dupes (tally rs seen dupes)
unfolding tally is_seen
tally-Counted [] seen dupes h = (omega arith, h, λ i. refl)
tally-Counted (r ∷ rs) seen dupes h =
    let size = length-see r seen in
    let next = if is_seen r.job_id seen then dupes + 1 else dupes in
    let (total, map, keys) = tally-Counted rs (see r seen) next (see-IsMap r seen h) in
    (ground (arith, size, total), map, λ i. ground (arith, keys i, is_seen-see i r seen))

-- The benchmark's verdict counts right. The map that it builds has exactly the jobs that some record
-- names, once each, and the jobs in it and the duplicates counted make up the records: what it calls
-- duplicates are the claims beyond the first of each job.
pub count_claims_lem :
    (rs : List ClaimRecord)
    → let (seen, dupes) = count_claims rs in
      (length seen + dupes ≡ length rs) × IsMap seen × ((i : ℕ) → is_seen i seen ≡ is_seen i rs)
unfolding tally is_seen
count_claims_lem rs =
    let (total, map, keys) = tally-Counted rs [] 0 tt in
    (omega (arith, total), map, λ i. ground (arith, keys i))

-- The number of records of a job.
abbrev pub count_id : ℕ → List ClaimRecord → ℕ
count_id i [] = 0
count_id i (r ∷ rs) = (if r.job_id == i then 1 else 0) + count_id i rs

pub count_id-append :
    (i : ℕ) (rs ss : List ClaimRecord) → count_id i (rs ++ ss) ≡ count_id i rs + count_id i ss
count_id-append i [] ss = omega arith
count_id-append i (r ∷ rs) ss = omega (arith, count_id-append i rs ss)

abbrev seen_once : ℕ → Seen → ℕ
unfolding is_seen
seen_once i seen = if is_seen i seen then 1 else 0

-- No duplicate is counted where no job has two records.
tally_once :
    (rs : List ClaimRecord) (seen : Seen) (dupes : ℕ)
    → ((i : ℕ) → count_id i rs + seen_once i seen ≤ 1)
    → (tally rs seen dupes).1 ≡ dupes
unfolding tally seen_once
tally_once [] seen dupes h = refl
tally_once (r ∷ rs) seen dupes h =
    let fresh : is_seen r.job_id seen ≡ false = ground (arith, h r.job_id) in
    rw (fresh, tally)
      (tally_once rs (see r seen) dupes (λ i. ground (arith, h i, is_seen-see i r seen, fresh)))

pub count_claims_once :
    (rs : List ClaimRecord)
    → ((i : ℕ) → count_id i rs ≤ 1)
    → ((count_claims rs).1 ≡ 0) × (length (count_claims rs).0 ≡ length rs)
count_claims_once rs h =
    let none_twice : (count_claims rs).1 ≡ 0 =
      unfold count_claims seen_once is_seen in tally_once rs [] 0 (λ i. omega (arith, h i)) in
    (none_twice, omega (arith, none_twice, (count_claims_lem rs).0))
