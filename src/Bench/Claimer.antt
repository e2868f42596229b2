-- ===== src/Bench/Claimer.antt =====
-- cmd/queue-bench/claim.go: `claimUntilEmpty`, one request after the other, and the claimers of
-- `raceClaimers` side by side.
use jobqueue.Common.{
  Text, ℕ, ◌≡◌, refl, ◌⊎◌, inl, inr, Bool, true, false, Option, none, some, List, [], ◌∷◌, ◌++◌,
  map,
}
use jobqueue.Bench.Http.{BenchError}
use jobqueue.Bench.Tally.{ClaimRecord}

-- Where a claimer is in its loop: about to claim, about to look again behind an empty answer, returned,
-- or returned with an error.
pub data Phase : Type 0 where
  claiming confirming returned : Phase
  broken : BenchError → Phase

pub record Claimer : Type 0 where
  pub worker : Text
  pub out : List ClaimRecord
  pub phase : Phase

unfoldable pub claimer : Text → Claimer
claimer worker = record { worker = worker; out = []; phase = claiming }

abbrev pub is_active : Phase → Bool
is_active claiming = true
is_active confirming = true
is_active returned = false
is_active (broken e) = false

-- The phase behind an empty answer.
abbrev pub looked : Phase → Phase
looked claiming = confirming
looked confirming = returned
looked returned = returned
looked (broken e) = broken e

abbrev pub claim_of : Text → ℕ → ClaimRecord
claim_of worker id = record { job_id = id; worker = worker }

-- What an active claimer does with the answer to its request.
unfoldable pub advance : BenchError ⊎ Option ℕ → Claimer → Claimer
advance (inl e) cl = record cl { phase = broken e }
advance (inr none) cl = record cl { phase = looked cl.phase }
advance (inr (some id)) cl = record cl {
  out = cl.out ++ (claim_of cl.worker id ∷ []);
  phase = claiming;
}

-- The records of all claimers, one claimer behind the other.
unfoldable pub all_claims : List Claimer → List ClaimRecord
all_claims [] = []
all_claims (cl ∷ cls) = cl.out ++ all_claims cls

pub all_claims_fresh : (ws : List Text) → all_claims (map claimer ws) ≡ []
unfolding all_claims claimer
all_claims_fresh [] = refl
all_claims_fresh (w ∷ ws) = all_claims_fresh ws
