-- ===== src/Common/Urls.antt =====
-- net/url: the path that a request of a URL has on the wire, behind the host, and the text of a segment of it.
use jobqueue.Common.Tests.{ltb, leb, ◌==◌, if◌then◌else◌}
use jobqueue.Common.Lists.{All}
use jobqueue.Common.Bytes.{Text}
use Prim.Native.Nat.{ℕ, ◌+◌, ◌-◌, ◌*◌, ◌/◌, ◌%◌}
use mathlib.Core.Path.{◌≡◌, refl, ap, ◌∙◌}
use mathlib.Core.Bool.{Bool, true, false, not, ◌&&◌, ◌||◌}
use mathlib.Core.Option.{Option, none, some}
use mathlib.Core.List.{[], ◌∷◌, ◌++◌}
use native.Mathlib.Omega.{arith}

abbrev between : ℕ → ℕ → ℕ → Bool
between lo hi b = leb lo b && leb b hi

-- Letters, digits and - _ . ~, and the slash between segments.
abbrev pub is_plain : ℕ → Bool
is_plain b =
    (between b'a' b'z' b || between b'A' b'Z' b || between b'0' b'9' b)
    || (b == b'-' || b == b'_' || b == b'.' || b == b'~' || b == b'/')

-- What a path keeps unescaped: shouldEscape, in the mode of paths.
abbrev is_kept : ℕ → Bool
is_kept b =
    is_plain b
    || (b == b'$'
        || b == b'&'
        || b == b'+'
        || b == b','
        || b == b':'
        || b == b';'
        || b == b'='
        || b == b'@')

-- validEncoded lets these pass as well.
abbrev is_valid : ℕ → Bool
is_valid b =
    is_kept b
    || (b == b'!'
        || b == 39
        || b == b'('
        || b == b')'
        || b == b'*'
        || b == b'['
        || b == b']'
        || b == b'%')

abbrev is_control : ℕ → Bool
is_control b = ltb b 32 || b == 127

abbrev any_byte : (ℕ → Bool) → Text → Bool
any_byte p [] = false
any_byte p (b ∷ s) = p b || any_byte p s

-- strings.Cut.
abbrev cut : ℕ → Text → Text × Text
cut at_byte [] = ([], [])
cut at_byte (b ∷ s) =
    let (before, behind) = cut at_byte s in if b == at_byte then ([], s) else (b ∷ before, behind)

abbrev hex_value : ℕ → Option ℕ
hex_value b =
    if between b'0' b'9' b
    then some (b - b'0')
    else if between b'a' b'f' b
    then some (b - b'a' + 10)
    else if between b'A' b'F' b
    then some (b - b'A' + 10)
    else none

-- Where `unescape` stands: in plain text, behind a percent sign, behind its first digit, or in error.
pub data Scan : Type 0 where
  at_text at_percent at_error : Scan
  at_digit : ℕ → Scan

abbrev scan : Scan → ℕ → Scan × Text
scan at_text b = if b == b'%' then (at_percent, []) else (at_text, b ∷ [])
scan at_percent b = elim (hex_value b) [ none ↦ (at_error, []) | some h ↦ (at_digit h, []) ]
scan (at_digit h) b = elim (hex_value b) [
  | none ↦ (at_error, [])
  | some l ↦ (at_text, (16 * h + l) ∷ [])
]
scan at_error b = (at_error, [])

abbrev put : Text → Option Text → Option Text
put out none = none
put out (some s) = some (out ++ s)

abbrev scan_end : Scan → Option Text
scan_end at_text = some []
scan_end _ = none

abbrev unescape_from : Scan → Text → Option Text
unescape_from st [] = scan_end st
unescape_from st (b ∷ s) = let (next, out) = scan st b in put out (unescape_from next s)

abbrev unescape : Text → Option Text
unescape s = unescape_from at_text s

abbrev hex_upper : ℕ → ℕ
hex_upper d = if ltb d 10 then b'0' + d else b'A' + (d - 10)

abbrev escape : Text → Text
escape [] = []
escape (b ∷ s) =
    if is_kept b then b ∷ escape s else b'%' ∷ hex_upper (b / 16) ∷ hex_upper (b % 16) ∷ escape s

-- EscapedPath, for the three parts of a URL: before the fragment, the fragment, and the path.
abbrev encoded : Text → Text → Text → Option Text
encoded rest fragment path = if any_byte is_control rest then none else elim (unescape fragment) [
  | none ↦ none
  | some f ↦ elim (unescape path) [
    | none ↦ none
    | some decoded ↦ some (if any_byte (λ b. not (is_valid b)) path then escape decoded else path)
  ]
]

-- The path on the wire, or `none` for an error of url.Parse. The query and the fragment are cut off.
unfoldable pub sent_path : Text → Option Text
sent_path url = let parts = cut b'#' url in encoded parts.0 parts.1 (cut b'?' parts.0).0

-- pathUnescape of net/http: a segment that is no encoding stands for itself.
unfoldable pub segment_text : Text → Text
segment_text s = elim (unescape s) [ none ↦ s | some t ↦ t ]

-- A text without need of escaping.
abbrev pub IsPlain : Text → Type 0
IsPlain s = All (λ b. is_plain b ≡ true) s

not_special :
    (b : ℕ)
    → is_plain b ≡ true
    → ((b == b'%') ≡ false) × ((b == b'#') ≡ false) × ((b == b'?') ≡ false) × (is_control b ≡ false)
not_special b h = (ground arith, ground arith, ground arith, ground arith)

cut_plain :
    (at_byte : ℕ)
    → ((b : ℕ) → is_plain b ≡ true → (b == at_byte) ≡ false)
    → (s : Text) → IsPlain s
    → cut at_byte s ≡ (s, [])
cut_plain at_byte other [] h = refl
cut_plain at_byte other (b ∷ s) h = rw (other b h.0, cut_plain at_byte other s h.1) refl

no_byte :
    (p : ℕ → Bool)
    → ((b : ℕ) → is_plain b ≡ true → p b ≡ false)
    → (s : Text) → IsPlain s
    → any_byte p s ≡ false
no_byte p other [] h = refl
no_byte p other (b ∷ s) h = rw (other b h.0, no_byte p other s h.1) refl

unescape_plain : (s : Text) → IsPlain s → unescape s ≡ some s
unescape_plain [] h = refl
unescape_plain (b ∷ s) h = rw ((not_special b h.0).0, unescape_plain s h.1) refl

pub segment_text_plain : (s : Text) → IsPlain s → segment_text s ≡ s
unfolding segment_text
segment_text_plain s h = rw (unescape_plain s h, segment_text) refl

-- A plain path is sent as it is written.
pub sent_path_plain : (s : Text) → IsPlain s → sent_path s ≡ some s
unfolding sent_path
sent_path_plain s h =
    let whole = cut_plain b'#' (λ b k. (not_special b k).1) s h in
    let no_query = cut_plain b'?' (λ b k. (not_special b k).2) s h in
    let decoded : encoded s [] s ≡ some s =
      rw
        (
          no_byte is_control (λ b k. (not_special b k).3) s h,
          unescape_plain s h,
          no_byte (λ b. not (is_valid b)) (λ b k. rw k refl) s h,
        )
        refl in
    ap (λ p. encoded p.0 p.1 (cut b'?' p.0).0) whole ∙ ap (λ p. encoded s [] p.0) no_query ∙ decoded
