-- ===== src/Bench/Race.antt =====
-- cmd/queue-bench/claim.go: `raceClaimers`, the claimers' requests in any order against the server.
pub mod Turns
pub mod Verdict
pub mod Ends
use jobqueue.Common.{
  if◌then◌else◌, Bool-cases, some_injective, length, select, pos, Text, ℕ, zero, suc, ◌≤◌, ◌≡◌,
  refl, ◌⊎◌, inl, inr, Bool, true, false, Option, none, some, List, [], ◌∷◌, arith,
}
use jobqueue.Jobs.{Job}
use jobqueue.Store.{find, update, has_id, is_pending, is_running, Db, Clock}
use jobqueue.Store.Rows.{update_of_none, Descending}
use jobqueue.Api.{ServerConfig, Message, Reply}
use jobqueue.Api.Requests.{Decoded, Seconds}
use jobqueue.Api.Reports.{handle_claim, ClaimRequest}
use jobqueue.Bench.Http.{claim_one, arrives, BenchError}
use jobqueue.Bench.Claimer.{is_active, advance, Claimer}

-- claimLease, in seconds and as the server converts it.
unfoldable pub claim_lease : Seconds
claim_lease = record { not_positive = false; duration = pos 600_000_000_000 }

-- The body of a claim, as the server decodes it.
unfoldable pub claim_body : Text → Decoded ClaimRequest
unfolding claim_lease
claim_body worker = record {
  first = inr (record { worker_id = worker; lease_seconds = claim_lease });
  more = false;
}

-- One request: the server's clock, the rows that others hold locked, and the number of the claimer.
pub record Turn : Type 0 where
  pub clock : Clock
  pub locked : ℕ → Bool
  pub who : ℕ

unfoldable pub read_claim : (Message → Text) → Reply × Db → (BenchError ⊎ Option ℕ) × Db
unfolding claim_one arrives
read_claim render (reply, db) = (claim_one (arrives render reply), db)

module _ (cfg : ServerConfig) (render : Message → Text) where
  unfoldable pub request_claim : Clock → (ℕ → Bool) → Text → Db → (BenchError ⊎ Option ℕ) × Db
  unfolding handle_claim claim_body read_claim
  request_claim c locked worker db =
      read_claim render (handle_claim cfg c locked (claim_body worker) db)

  abbrev ask : Clock → (ℕ → Bool) → Claimer → Db → Claimer × Db
  unfolding advance request_claim
  ask c locked cl db =
      let (answer, db') = request_claim c locked cl.worker db in (advance answer cl, db')

  -- The turn of a claimer that has returned does nothing.
  unfoldable pub turn_at : Clock → (ℕ → Bool) → ℕ → List Claimer → Db → List Claimer × Db
  unfolding advance request_claim
  turn_at c locked i [] db = ([], db)
  turn_at c locked zero (cl ∷ cls) db =
      let (cl', db') = ask c locked cl db in
      if is_active cl.phase then (cl' ∷ cls, db') else (cl ∷ cls, db)
  turn_at c locked (suc i) (cl ∷ cls) db =
      let (cls', db') = turn_at c locked i cls db in (cl ∷ cls', db')

  unfoldable pub race : List Turn → List Claimer × Db → List Claimer × Db
  unfolding turn_at
  race [] (cls, db) = (cls, db)
  race (t ∷ ts) (cls, db) = race ts (turn_at t.clock t.locked t.who cls db)

abbrev pub count_pending : List Job → ℕ
count_pending js = length (select (λ j. is_pending j.status) js)

abbrev pub running_row : Option Job → ℕ
running_row none = 0
running_row (some j) = if is_running j.status then 1 else 0

-- Whether the row of an id is RUNNING, as a number.
unfoldable pub running_at : ℕ → Db → ℕ
unfolding find
running_at i db = running_row (find (has_id i) db.jobs)

pub below_find : (n i : ℕ) (js : List Job) → Descending n js → n ≤ i → find (has_id i) js ≡ none
unfolding find
below_find n i [] d h = refl
below_find n i (j ∷ js) d h =
    let rest = below_find j.id i js d.1 (omega (arith, h, d.0)) in ground (arith, rest, d.0)

-- An UPDATE by id that takes a row out of PENDING takes one off their number.
pub count_pending-update :
    (n i : ℕ) (f : Job → Job) (js : List Job) (j : Job)
    → Descending n js
    → find (has_id i) js ≡ some j
    → is_pending j.status ≡ true
    → is_pending (f j).status ≡ false
    → count_pending js ≡ suc (count_pending (update (has_id i) f js))
unfolding find update
count_pending-update n i f [] j d e p q = absurd (cc e)
count_pending-update n i f (k ∷ js) j d e p q = elim (Bool-cases (has_id i k)) [
  | inl y ↦
      let same : k ≡ j = some_injective (rw y at e) in
      let none_left : update (has_id i) f js ≡ js =
        update_of_none (has_id i) f js (below_find k.id i js d.1 (ground arith)) in
      rw (y, same, p, q, none_left) refl
  | inr m ↦
      let rest = count_pending-update k.id i f js j d.1 (rw m at e) p q in
      rw m (ground (arith, rest))
]
