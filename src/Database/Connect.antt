-- ===== src/Database/Connect.antt =====
-- internal/database/database.go: `Open` and `WaitForDB`. What the driver answers is an input.
use jobqueue.Common.{
  if◌then◌else◌, Bool-cases, Option-cases, Text, ℕ, zero, suc, ◌+◌, ◌<◌, ◌≡◌, sym, ap, ◌∙◌, ◌≢◌,
  inl, inr, Bool, true, Option, none, some, arith,
}

-- Config.
pub record PoolConfig : Type 0 where
  pub url : Text
  pub max_open : ℕ
  pub max_idle : ℕ
  pub max_lifetime : ℕ

unfoldable pub default_pool : Text → PoolConfig
default_pool url = record {
  url = url;
  max_open = 25;
  max_idle = 5;
  max_lifetime = 1_800_000_000_000;
}

pub data OpenError : Type 0 where
  not_opened not_pinged : Text → OpenError

-- The answers of sql.Open, which only looks at the URL, and of the ping.
unfoldable pub open_pool : Option Text → Option Text → Option OpenError
open_pool (some e) ping = some (not_opened e)
open_pool none (some e) = some (not_pinged e)
open_pool none none = none

-- How WaitForDB ends, or that it goes on.
pub data DbWait : Type 0 where
  connected cancelled waiting : DbWait
  too_late : OpenError → DbWait

-- The loop from attempt k on, of which `fuel` are looked at: what Open answers, whether the deadline has
-- passed behind it, and whether the context ends in the wait.
unfoldable pub wait_for_db : (ℕ → Option OpenError) → (ℕ → Bool) → (ℕ → Bool) → ℕ → ℕ → DbWait
wait_for_db opens late ended zero k = waiting
wait_for_db opens late ended (suc fuel) k =
    let again = wait_for_db opens late ended fuel (k + 1) in
    elim (opens k) [
      | none ↦ connected
      | some e ↦ if late k then too_late e else if ended k then cancelled else again
    ]

module _ (opens : ℕ → Option OpenError) (late ended : ℕ → Bool) where
  wait_connects :
      (fuel k : ℕ)
      → wait_for_db opens late ended fuel k ≡ connected
      → (i : ℕ) × (i < fuel) × (opens (k + i) ≡ none)
  unfolding wait_for_db
  wait_connects zero k h = absurd (cc h)
  wait_connects (suc fuel) k h = elim (Option-cases (opens k)) [
    | inl e ↦ let here : k + 0 ≡ k = omega arith in (0, omega arith, ap opens here ∙ e)
    | inr (x, e) ↦ elim (Bool-cases (late k)) [
      | inl y ↦ absurd (cc (rw y at (rw (e, wait_for_db) at h)))
      | inr soon ↦ elim (Bool-cases (ended k)) [
        | inl y ↦ absurd (cc (rw (soon, y) at (rw (e, wait_for_db) at h)))
        | inr on ↦
            let (i, less, good) =
              wait_connects fuel (k + 1) (rw (soon, on) at (rw (e, wait_for_db) at h)) in
            let shift : k + suc i ≡ k + 1 + i = omega arith in
            (suc i, omega arith, ap opens shift ∙ good)
      ]
    ]
  ]

  wait_over : (n k : ℕ) → late (k + n) ≡ true → wait_for_db opens late ended (suc n) k ≢ waiting
  unfolding wait_for_db
  wait_over zero k h = elim (Option-cases (opens k)) [
    | inl e ↦ rw (e, wait_for_db) (λ y. absurd (cc y))
    | inr (x, e) ↦
        let here : k + 0 ≡ k = omega arith in
        let past : late k ≡ true = ap late (sym here) ∙ h in
        rw (e, wait_for_db) (rw past (λ z. absurd (cc z)))
  ]
  wait_over (suc n) k h = elim (Option-cases (opens k)) [
    | inl e ↦ rw (e, wait_for_db) (λ y. absurd (cc y))
    | inr (x, e) ↦ elim (Bool-cases (late k)) [
      | inl y ↦ rw (e, wait_for_db) (rw y (λ z. absurd (cc z)))
      | inr soon ↦ elim (Bool-cases (ended k)) [
        | inl y ↦ rw (e, wait_for_db) (rw (soon, y) (λ z. absurd (cc z)))
        | inr on ↦
            let shift : k + suc n ≡ k + 1 + n = omega arith in
            let next : late (k + 1 + n) ≡ true = ap late (sym shift) ∙ h in
            rw (e, wait_for_db) (rw (soon, on) (wait_over n (k + 1) next))
      ]
    ]
  ]

  -- The wait for the database ends by its deadline and is honest about it: once the deadline has passed behind
  -- attempt n, counted from 0, that attempt is the last one; and it ends as connected only if one of
  -- the attempts made has opened the pool and been answered to its ping.
  pub wait_for_db_lem :
      (n fuel : ℕ)
      → (late (0 + n) ≡ true → wait_for_db opens late ended (suc n) 0 ≢ waiting)
        × (wait_for_db opens late ended fuel 0 ≡ connected
            → (i : ℕ) × (i < fuel) × (opens (0 + i) ≡ none))
  wait_for_db_lem n fuel = ((λ h. wait_over n 0 h), λ h. wait_connects fuel 0 h)
