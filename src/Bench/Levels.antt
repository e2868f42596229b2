-- ===== src/Bench/Levels.antt =====
-- cmd/queue-bench/claim.go: the numbers of claimers, read from the command line.
use jobqueue.Common.{
  ◌==◌, if◌then◌else◌, Bool-cases, All, pos_part, ltb_ℤ, ℤ, pos, Text, text_eq, trim_space,
  parse_int, ℕ, ◌≤◌, ◌≡◌, subst, ◌≢◌, ◌⊎◌, inl, inr, Option, none, some, List, [], ◌∷◌, arith,
}

-- strings.Split by a comma; there is always a field.
unfoldable pub split_comma : Text → List Text
split_comma [] = [] ∷ []
split_comma (b ∷ s) = elim (split_comma s) [
  | [] ↦ (b ∷ []) ∷ []
  | f ∷ fs ↦ if b == b',' then [] ∷ f ∷ fs else (b ∷ f) ∷ fs
]

pub data LevelError : Type 0 where
  not_positive : Text → LevelError
  no_levels : LevelError

abbrev level_of : Text → Option ℤ → LevelError ⊎ ℕ
level_of field none = inl (not_positive field)
level_of field (some n) = if ltb_ℤ n (pos 1) then inl (not_positive field) else inr (pos_part n)

-- The first error ends the loop.
abbrev add_level : LevelError ⊎ ℕ → LevelError ⊎ List ℕ → LevelError ⊎ List ℕ
add_level (inl e) others = inl e
add_level (inr n) (inl e) = inl e
add_level (inr n) (inr ns) = inr (n ∷ ns)

-- The loop over the fields, with the levels read behind it.
unfoldable pub levels_of : List Text → LevelError ⊎ List ℕ
unfolding trim_space parse_int text_eq
levels_of [] = inr []
levels_of (f ∷ fs) =
    let field = trim_space f in
    let others = levels_of fs in
    if text_eq field [] then others else add_level (level_of field (parse_int field)) others

abbrev check_levels : LevelError ⊎ List ℕ → LevelError ⊎ List ℕ
check_levels (inl e) = inl e
check_levels (inr []) = inl no_levels
check_levels (inr (n ∷ ns)) = inr (n ∷ ns)

unfoldable pub parse_levels : Text → LevelError ⊎ List ℕ
unfolding split_comma levels_of
parse_levels s = check_levels (levels_of (split_comma s))

abbrev ArePositive : LevelError ⊎ List ℕ → Type 0
ArePositive (inl e) = Unit {0}
ArePositive (inr ns) = All (λ n. 1 ≤ n) ns

add_level-ArePositive :
    (field : Text) (o : Option ℤ) (others : LevelError ⊎ List ℕ)
    → ArePositive others
    → ArePositive (add_level (level_of field o) others)
add_level-ArePositive field none others h = tt
add_level-ArePositive field (some n) others h = elim (Bool-cases (ltb_ℤ n (pos 1))) [
  | inl y ↦ rw y tt
  | inr high ↦ rw high (put (pos_part n) (ground arith) others h)
]
  where
    put :
        (n : ℕ)
        → 1 ≤ n
        → (others : LevelError ⊎ List ℕ) → ArePositive others
        → ArePositive (add_level (inr n) others)
    put n l (inl e) h = tt
    put n l (inr ns) h = (l, h)

levels_of-ArePositive : (fs : List Text) → ArePositive (levels_of fs)
unfolding levels_of
levels_of-ArePositive [] = tt
levels_of-ArePositive (f ∷ fs) = elim (Bool-cases (text_eq (trim_space f) [])) [
  | inl y ↦ rw y (levels_of-ArePositive fs)
  | inr n ↦ rw n (
      add_level-ArePositive (trim_space f) (parse_int (trim_space f)) (levels_of fs)
        (levels_of-ArePositive fs))
]

abbrev AreUsable : LevelError ⊎ List ℕ → Type 0
AreUsable (inl e) = Unit {0}
AreUsable (inr ns) = (ns ≢ []) × All (λ n. 1 ≤ n) ns

check_levels-AreUsable :
    (levels : LevelError ⊎ List ℕ) → ArePositive levels → AreUsable (check_levels levels)
check_levels-AreUsable (inl e) h = tt
check_levels-AreUsable (inr []) h = tt
check_levels-AreUsable (inr (n ∷ ns)) h = (λ e. absurd (cc e), h)

-- What is read as levels is never empty and holds no level below 1, so no race is without claimers.
pub parse_levels_lem :
    (s : Text) (ns : List ℕ) → parse_levels s ≡ inr ns → (ns ≢ []) × All (λ n. 1 ≤ n) ns
unfolding parse_levels
parse_levels_lem s ns h =
    subst AreUsable h
      (check_levels-AreUsable (levels_of (split_comma s)) (levels_of-ArePositive (split_comma s)))
