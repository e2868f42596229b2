-- ===== src/Common/Print.antt =====
-- What the source uses of fmt's %-*s. The texts that it pads are ASCII.
use Prim.Native.Nat.{ℕ, zero, suc, ◌-◌}
use mathlib.Core.Path.{◌≡◌, refl, ap}
use mathlib.Core.List.{[], ◌∷◌, ◌++◌}
use jobqueue.Common.Lists.{length}
use jobqueue.Common.Bytes.{Text}

abbrev pub repeat : ℕ → ℕ → Text
repeat zero b = []
repeat (suc n) b = b ∷ repeat n b

-- %-*s.
unfoldable pub pad_right : ℕ → Text → Text
pad_right width s = s ++ repeat (width - length s) b' '

abbrev pub newline : Text
newline = 10 ∷ []

pub length-repeat : (n b : ℕ) → length (repeat n b) ≡ n
length-repeat zero b = refl
length-repeat (suc n) b = ap suc (length-repeat n b)
