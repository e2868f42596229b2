-- ===== src/Common/Bytes.antt =====
-- Go strings as lists of bytes, and what the source uses of package strings.
use Prim.Native.Nat.{ℕ, zero, suc, ◌-◌}
use Prim.Native.Char.{code}
use Prim.Native.String.{String}
use mathlib.Core.Path.{◌≡◌, refl}
use mathlib.Core.Logic.{◌↔◌}
use mathlib.Core.Bool.{Bool, true, false, ◌&&◌}
use mathlib.Core.Option.{Option, none, some}
use mathlib.Core.List.{List, [], ◌∷◌, map, reverse}
use native.Mathlib.Omega.{arith}
use jobqueue.Common.Lists.{length}
use jobqueue.Common.Tests.{◌==◌, leb, if◌then◌else◌}

abbrev pub Text : Type 0
Text = List ℕ

-- The bytes of an ASCII literal.
abbrev pub text : String → Text
text String.[] = []
text (String.◌∷◌ c s) = code c ∷ text s

unfoldable pub text_eq : Text → Text → Bool
text_eq [] [] = true
text_eq (a ∷ s) (b ∷ t) = a == b && text_eq s t
text_eq _ _ = false

pub text_eq_iff : (s t : Text) → (text_eq s t ≡ true) ↔ (s ≡ t)
unfolding text_eq
text_eq_iff [] [] = ground arith
text_eq_iff (a ∷ s) (b ∷ t) = ground (arith, text_eq_iff s t)
text_eq_iff [] (b ∷ t) = ground arith
text_eq_iff (a ∷ s) [] = ground arith

pub text_eq_refl : (s : Text) → text_eq s s ≡ true
text_eq_refl s = (text_eq_iff s s).1 refl

-- What is left of `t` behind the prefix `p`, if it has that prefix.
unfoldable pub cut_prefix : Text → Text → Option Text
cut_prefix [] t = some t
cut_prefix (a ∷ p) [] = none
cut_prefix (a ∷ p) (b ∷ t) = let rest = cut_prefix p t in if a == b then rest else none

-- strings.TrimPrefix.
unfoldable pub trim_prefix : Text → Text → Text
unfolding cut_prefix
trim_prefix t p = elim (cut_prefix p t) [ none ↦ t | some rest ↦ rest ]

-- strings.HasPrefix.
unfoldable pub has_prefix : Text → Text → Bool
unfolding cut_prefix
has_prefix t p = elim (cut_prefix p t) [ none ↦ false | some rest ↦ true ]

-- strings.HasSuffix.
unfoldable pub has_suffix : Text → Text → Bool
unfolding has_prefix
has_suffix t p = has_prefix (reverse t) (reverse p)

-- The first of the given runes that stands in front is cut off.
unfoldable pub cut_any : List Text → Text → Option Text
unfolding cut_prefix
cut_any [] t = none
cut_any (r ∷ rs) t =
    let others = cut_any rs t in elim (cut_prefix r t) [ none ↦ others | some rest ↦ some rest ]

-- The UTF-8 encodings of the runes that unicode.IsSpace names.
abbrev space_runes : List Text
space_runes =
    (9 ∷ [])
    ∷ (10 ∷ [])
    ∷ (11 ∷ [])
    ∷ (12 ∷ [])
    ∷ (13 ∷ [])
    ∷ (32 ∷ [])
    ∷ (0xc2 ∷ 0x85 ∷ [])
    ∷ (0xc2 ∷ 0xa0 ∷ [])
    ∷ (0xe1 ∷ 0x9a ∷ 0x80 ∷ [])
    ∷ (0xe2 ∷ 0x80 ∷ 0x80 ∷ [])
    ∷ (0xe2 ∷ 0x80 ∷ 0x81 ∷ [])
    ∷ (0xe2 ∷ 0x80 ∷ 0x82 ∷ [])
    ∷ (0xe2 ∷ 0x80 ∷ 0x83 ∷ [])
    ∷ (0xe2 ∷ 0x80 ∷ 0x84 ∷ [])
    ∷ (0xe2 ∷ 0x80 ∷ 0x85 ∷ [])
    ∷ (0xe2 ∷ 0x80 ∷ 0x86 ∷ [])
    ∷ (0xe2 ∷ 0x80 ∷ 0x87 ∷ [])
    ∷ (0xe2 ∷ 0x80 ∷ 0x88 ∷ [])
    ∷ (0xe2 ∷ 0x80 ∷ 0x89 ∷ [])
    ∷ (0xe2 ∷ 0x80 ∷ 0x8a ∷ [])
    ∷ (0xe2 ∷ 0x80 ∷ 0xa8 ∷ [])
    ∷ (0xe2 ∷ 0x80 ∷ 0xa9 ∷ [])
    ∷ (0xe2 ∷ 0x80 ∷ 0xaf ∷ [])
    ∷ (0xe2 ∷ 0x81 ∷ 0x9f ∷ [])
    ∷ (0xe3 ∷ 0x80 ∷ 0x80 ∷ [])
    ∷ []

-- One round for each byte is enough, since a rune has at least one.
unfoldable pub trim_front : List Text → ℕ → Text → Text
unfolding cut_any
trim_front runes zero t = t
trim_front runes (suc n) t = elim (cut_any runes t) [
  | none ↦ t
  | some rest ↦ trim_front runes n rest
]

-- strings.TrimSpace.
unfoldable pub trim_space : Text → Text
unfolding trim_front
trim_space t =
    let u = trim_front space_runes (length t) t in
    reverse (trim_front (map reverse space_runes) (length u) (reverse u))

trim_space_example : trim_space (text " a b \n") ≡ text "a b"
unfolding trim_space
trim_space_example = refl

-- strings.ToUpper, where it decides whether the result is a word of ASCII letters: a to z, and the two
-- other runes whose upper case is an ASCII letter, U+0131 and U+017F. Other runes are left alone.
unfoldable pub to_upper : Text → Text
to_upper [] = []
to_upper (a ∷ []) = (if leb b'a' a && leb a b'z' then a - 32 else a) ∷ []
to_upper (a ∷ b ∷ t) =
    let two = b'I' ∷ to_upper t in
    let long = b'S' ∷ to_upper t in
    let one = (if leb b'a' a && leb a b'z' then a - 32 else a) ∷ to_upper (b ∷ t) in
    if a == 0xc4 && b == 0xb1 then two else if a == 0xc5 && b == 0xbf then long else one

to_upper_example : to_upper (text "pending") ≡ text "PENDING"
unfolding to_upper
to_upper_example = refl
