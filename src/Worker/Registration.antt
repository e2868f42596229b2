-- ===== src/Worker/Registration.antt =====
-- internal/worker/worker.go: registerWithRetry.
use jobqueue.Common.{
  ltb, if◌then◌else◌, Option-cases, length, All, ℕ, zero, suc, ◌+◌, ◌*◌, ◌≤◌, ◌<◌, ◌≡◌, refl, sym,
  ap, ◌∙◌, ◌≢◌, inl, inr, Bool, false, Option, none, some, List, [], ◌∷◌, arith,
}
use jobqueue.Jobs.Backoff.{second}
use jobqueue.Worker.Client.{ClientError}

-- registerWithRetry's next wait, in nanoseconds.
unfoldable pub next_wait : ℕ → ℕ
next_wait wait = if ltb wait (10 * second) then wait * 2 else wait

-- How registration stands after some attempts, with the waits made, the newest first.
pub data Registration : Type 0 where
  registered ended_early : List ℕ → Registration
  still_trying : ℕ → List ℕ → Registration

-- The loop from an attempt on. `answers` are the server's, `ended` whether the context ends behind an
-- attempt or in its wait. The loop has no bound of its own: `fuel` is the number of attempts looked at.
unfoldable pub register_from :
    (ℕ → Option ClientError) → (ℕ → Bool) → ℕ → ℕ → ℕ → List ℕ → Registration
unfolding next_wait
register_from answers ended zero attempt wait waits = still_trying wait waits
register_from answers ended (suc fuel) attempt wait waits =
    let later = register_from answers ended fuel (attempt + 1) (next_wait wait) (wait ∷ waits) in
    elim (answers attempt) [
      | none ↦ registered waits
      | some e ↦ if ended attempt then ended_early waits else later
    ]

abbrev pub register_with_retry : (ℕ → Option ClientError) → (ℕ → Bool) → ℕ → Registration
unfolding register_from
register_with_retry answers ended fuel = register_from answers ended fuel 1 500_000_000 []

-- The waits that an endless run of failures makes: half a second, doubled up to sixteen.
unfoldable pub waits_from : ℕ → ℕ → List ℕ → List ℕ
unfolding next_wait
waits_from zero wait waits = waits
waits_from (suc n) wait waits = waits_from n (next_wait wait) (wait ∷ waits)

-- The wait behind k failures.
unfoldable pub wait_after : ℕ → ℕ
unfolding next_wait
wait_after zero = 500_000_000
wait_after (suc k) = next_wait (wait_after k)

register_at :
    (answers : ℕ → Option ClientError) (ended : ℕ → Bool) (k attempt wait : ℕ) (waits : List ℕ)
    → ((j : ℕ) → j < k → (answers (attempt + j) ≢ none) × (ended (attempt + j) ≡ false))
    → answers (attempt + k) ≡ none
    → register_from answers ended (suc k) attempt wait waits ≡ registered (waits_from k wait waits)
unfolding register_from waits_from
register_at answers ended zero attempt wait waits before h =
    let first : answers attempt ≡ none = ap answers (omega arith) ∙ h in
    rw (first, register_from) refl
register_at answers ended (suc k) attempt wait waits before h =
    let now = before 0 (omega arith) in
    let here : attempt + 0 ≡ attempt = omega arith in
    let shift : (j : ℕ) → attempt + 1 + j ≡ attempt + suc j = λ j. omega arith in
    let rest =
      register_at answers ended k (attempt + 1) (next_wait wait) (wait ∷ waits)
        (λ j l.
          let later = before (suc j) (omega arith) in
          (λ e. later.0 (ap answers (sym (shift j)) ∙ e), ap ended (shift j) ∙ later.1))
        (ap answers (shift k) ∙ h) in
    elim (Option-cases (answers attempt)) [
      | inl e ↦ absurd (now.0 (ap answers here ∙ e))
      | inr (x, e) ↦
          let on : ended attempt ≡ false = ap ended (sym here) ∙ now.1 in
          rw (e, register_from) (rw on rest)
    ]

wait_top : (n : ℕ) → wait_after (suc (suc (suc (suc (suc n))))) ≡ 16 * second
unfolding wait_after next_wait
wait_top zero = refl
wait_top (suc n) = ap next_wait (wait_top n)

abbrev pub WaitBounds : ℕ → Type 0
WaitBounds wait = (500_000_000 ≤ wait) × (wait ≤ 16 * second)

wait_after-WaitBounds : (k : ℕ) → WaitBounds (wait_after k)
unfolding wait_after next_wait
wait_after-WaitBounds zero = omega arith
wait_after-WaitBounds (suc zero) = omega arith
wait_after-WaitBounds (suc (suc zero)) = omega arith
wait_after-WaitBounds (suc (suc (suc zero))) = omega arith
wait_after-WaitBounds (suc (suc (suc (suc zero)))) = omega arith
wait_after-WaitBounds (suc (suc (suc (suc (suc n))))) = rw (wait_top n) (omega arith)

waits_from-All :
    (k n : ℕ) (waits : List ℕ)
    → All WaitBounds waits
    → All WaitBounds (waits_from k (wait_after n) waits)
      × (length (waits_from k (wait_after n) waits) ≡ k + length waits)
unfolding waits_from wait_after
waits_from-All zero n waits all = (all, omega arith)
waits_from-All (suc k) n waits all =
    let rest = waits_from-All k (suc n) (wait_after n ∷ waits) (wait_after-WaitBounds n, all) in
    (rest.0, omega (arith, rest.1))

-- Registration is tried again for as long as it takes: if the server first accepts behind k failures
-- and the context does not end before, then k + 1 attempts register the worker, with a wait behind
-- every failure of at least half a second and at most sixteen.
pub register_with_retry_lem :
    (answers : ℕ → Option ClientError) (ended : ℕ → Bool) (k : ℕ)
    → ((j : ℕ) → j < k → (answers (1 + j) ≢ none) × (ended (1 + j) ≡ false))
    → answers (1 + k) ≡ none
    → (waits : List ℕ) × (register_with_retry answers ended (suc k) ≡ registered waits)
      × (length waits ≡ k)
      × All WaitBounds waits
unfolding register_from wait_after
register_with_retry_lem answers ended k before h =
    let (all, size) = waits_from-All k 0 [] tt in
    (
      waits_from k (wait_after 0) [],
      register_at answers ended k 1 (wait_after 0) [] before h,
      omega (arith, size),
      all,
    )
