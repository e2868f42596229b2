-- ===== src/Worker/Delivery.antt =====
-- internal/worker/worker.go: how a terminal update is sent, and sent again.
use jobqueue.Common.{
  ltb, if◌then◌else◌, Bool-cases, Option-cases, ℕ, zero, suc, ◌+◌, ◌≡◌, inl, inr, Bool, false,
  Option, none, some,
}
use jobqueue.Worker.Client.{ClientError, api_error}

-- How `report` ends.
pub data Delivery : Type 0 where
  delivered cut gave_up : Delivery
  rejected : ClientError → Delivery

-- An error that no retry would change.
unfoldable pub is_final : ClientError → Bool
is_final (api_error status code msg) = ltb status 500
is_final _ = false

module _ {S : Type 0} (send : ℕ → S → Option ClientError × S) (ended : ℕ → Bool) where
  -- The loop from attempt k, with n attempts left. `ended` tells whether the context ends in the wait
  -- behind an attempt.
  unfoldable pub report_from : ℕ → ℕ → S → Delivery × S
  unfolding is_final
  report_from zero k s = (gave_up, s)
  report_from (suc n) k s =
      let (error, s') = send k s in
      let again = report_from n (k + 1) s' in
      elim error [
        | none ↦ (delivered, s')
        | some e ↦ if is_final e then (rejected e, s') else if ended k then (cut, s') else again
      ]

  -- Four attempts at most.
  unfoldable pub report : S → Delivery × S
  unfolding report_from
  report s = report_from 4 1 s

  -- What every attempt keeps holds behind the report, and what a successful attempt brings holds
  -- behind a delivered one.
  pub report_keeps :
      (P Q : S → Type 0)
      → ((k : ℕ) (s : S) → P s → P (send k s).1)
      → ((k : ℕ) (s : S) → P s → (send k s).0 ≡ none → Q (send k s).1)
      → (n k : ℕ) (s : S) → P s
      → P (report_from n k s).1 × ((report_from n k s).0 ≡ delivered → Q (report_from n k s).1)
  unfolding report_from
  report_keeps P Q keep good zero k s p = (p, λ h. absurd (cc h))
  report_keeps P Q keep good (suc n) k s p = elim (Option-cases (send k s).0) [
    | inl e ↦ rw (e, report_from) (keep k s p, λ _. good k s p e)
    | inr (x, e) ↦ elim (Bool-cases (is_final x)) [
      | inl y ↦ rw (e, report_from) (rw y (keep k s p, λ h. absurd (cc h)))
      | inr f ↦ elim (Bool-cases (ended k)) [
        | inl y ↦ rw (e, report_from) (rw (f, y) (keep k s p, λ h. absurd (cc h)))
        | inr m ↦
            rw (e, report_from)
              (rw (f, m) (report_keeps P Q keep good n (k + 1) (send k s).1 (keep k s p)))
      ]
    ]
  ]
