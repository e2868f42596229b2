-- ===== src/Common/Sort.antt =====
-- ORDER BY: a stable insertion sort. SQL leaves the order of equal keys open, and so do the
-- theorems of this library.
use Prim.Native.Nat.{ℕ, suc}
use mathlib.Core.Path.{◌≡◌, refl}
use mathlib.Core.List.{List, [], ◌∷◌}
use native.Mathlib.Omega.{arith}
use jobqueue.Common.Tests.{leb, if◌then◌else◌}
use jobqueue.Common.Lists.{length, All}

module _ {A : Type 0} where
  unfoldable pub insert_by : (A → ℕ) → A → List A → List A
  insert_by key a [] = a ∷ []
  insert_by key a (b ∷ bs) = if leb (key a) (key b) then a ∷ b ∷ bs else b ∷ insert_by key a bs

  -- Ascending by the key.
  unfoldable pub sort_by : (A → ℕ) → List A → List A
  unfolding insert_by
  sort_by key [] = []
  sort_by key (a ∷ as') = insert_by key a (sort_by key as')

  insert_by-All {κ} :
      (P : A → Type κ) (key : A → ℕ) (a : A) (bs : List A)
      → P a
      → All P bs
      → All P (insert_by key a bs)
  unfolding insert_by
  insert_by-All P key a [] pa pbs = (pa, tt)
  insert_by-All P key a (b ∷ bs) pa pbs = ground (arith, insert_by-All P key a bs pa pbs.1)

  pub sort_by-All {κ} :
      (P : A → Type κ) (key : A → ℕ) (bs : List A) → All P bs → All P (sort_by key bs)
  unfolding sort_by
  sort_by-All P key [] h = tt
  sort_by-All P key (b ∷ bs) h =
      insert_by-All P key b (sort_by key bs) h.0 (sort_by-All P key bs h.1)

  length-insert_by :
      (key : A → ℕ) (a : A) (bs : List A) → length (insert_by key a bs) ≡ suc (length bs)
  unfolding insert_by
  length-insert_by key a [] = refl
  length-insert_by key a (b ∷ bs) = ground (arith, length-insert_by key a bs)

  pub length-sort_by : (key : A → ℕ) (bs : List A) → length (sort_by key bs) ≡ length bs
  unfolding sort_by
  length-sort_by key [] = refl
  length-sort_by key (b ∷ bs) =
      omega (arith, length-insert_by key b (sort_by key bs), length-sort_by key bs)
