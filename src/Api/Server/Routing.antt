-- ===== src/Api/Server/Routing.antt =====
-- internal/api/server.go: `routes`, and how net/http's ServeMux sends a request to one of its patterns. A
-- path is the one of the request line, as `sent_path` gives it; the mux decodes its segments one by one.
use jobqueue.Common.{
  ◌==◌, if◌then◌else◌, Bool-cases, length, All, Text, text, text_eq, ℕ, suc, ◌+◌, ◌≤◌, ◌<◌, ◌≡◌,
  refl, sym, ap, ◌∙◌, inl, inr, Bool, true, false, not, ◌&&◌, ◌||◌, Option, none, some, List, [],
  ◌∷◌, ◌++◌, map, length-map, segment_text, sent_path, IsPlain, sent_path_plain, arith,
}
use jobqueue.Api.Server.{routes, Segment, Endpoint, Route, lit, wild, to_fail, to_get}

-- The segments behind the slash in front.
unfoldable pub split_slash : Text → List Text
split_slash [] = [] ∷ []
split_slash (b ∷ s) = elim (split_slash s) [
  | [] ↦ (b ∷ []) ∷ []
  | f ∷ fs ↦ if b == b'/' then [] ∷ f ∷ fs else (b ∷ f) ∷ fs
]

unfoldable pub segments : Text → List Text
unfolding split_slash
segments [] = []
segments (b ∷ s) = split_slash s

-- A segment that cleaning a path leaves alone.
unfoldable pub is_segment : Text → Bool
unfolding text_eq
is_segment s = not (text_eq s []) && (not (text_eq s (text ".")) && not (text_eq s (text "..")))

unfoldable pub every : List Text → Bool
unfolding is_segment
every [] = true
every (s ∷ ss) = is_segment s && every ss

-- What the wildcard of a pattern matches, and the empty text where the pattern has none.
unfoldable pub match_segments : List Segment → List Text → Option Text
unfolding text_eq
match_segments [] [] = some []
match_segments (lit s ∷ ps) (t ∷ ts) =
    let rest = match_segments ps ts in if text_eq s t then rest else none
match_segments (wild ∷ ps) (t ∷ ts) =
    let rest = match_segments ps ts in elim rest [ none ↦ none | some _ ↦ some t ]
match_segments _ _ = none

-- GET serves HEAD as well.
unfoldable pub method_matches : Text → Text → Bool
unfolding text_eq
method_matches pattern method =
    text_eq pattern method || (text_eq pattern (text "GET") && text_eq method (text "HEAD"))

unfoldable pub match_route : Text → List Text → Route → Option (Endpoint × Text)
unfolding match_segments method_matches
match_route method ss r =
    if method_matches r.method method
    then elim (match_segments r.path ss) [ none ↦ none | some raw ↦ some (r.target, raw) ]
    else none

-- Patterns of one method and one length differ in a literal segment, so a request matches one at most, and
-- the mux's choice of the most specific one does not come up.
unfoldable pub first_match : Text → List Text → List Route → Option (Endpoint × Text)
unfolding match_route
first_match method ss [] = none
first_match method ss (r ∷ rs) =
    let others = first_match method ss rs in
    elim (match_route method ss r) [ none ↦ others | some found ↦ some found ]

-- The endpoint and the {id} of a request. A path that is not clean is redirected to the clean one.
unfoldable pub dispatch : Text → Text → Option (Endpoint × Text)
unfolding segments first_match routes every segment_text
dispatch method path =
    let found = first_match method (map segment_text (segments path)) routes in
    if every (segments path) then found else none

-- The endpoint and the {id} of a client's request of a URL, given by its method and what is behind the host.
unfoldable pub received : Text → Text → Option (Endpoint × Text)
unfolding sent_path dispatch
received method url = elim (sent_path url) [ none ↦ none | some path ↦ dispatch method path ]

pub received_plain : (method url : Text) → IsPlain url → received method url ≡ dispatch method url
unfolding received
received_plain method url h = rw (sent_path_plain url h, received) refl

received_cut : received (text "POST") (text "/workers/a?b/heartbeat") ≡ none
unfolding received
received_cut = refl

dispatch_example : dispatch (text "POST") (text "/jobs/12/fail") ≡ some (to_fail, text "12")
unfolding dispatch
dispatch_example = refl

dispatch_escaped : dispatch (text "GET") (text "/jobs/a%2Fb") ≡ some (to_get, text "a/b")
unfolding dispatch
dispatch_escaped = refl

dispatch_dots : dispatch (text "GET") (text "/jobs/..") ≡ none
unfolding dispatch
dispatch_dots = refl

abbrev pub count_slash : Text → ℕ
count_slash [] = 0
count_slash (b ∷ s) = if b == b'/' then suc (count_slash s) else count_slash s

split_slash_cons : (s : Text) → (f : Text) × (fs : List Text) × (split_slash s ≡ f ∷ fs)
unfolding split_slash
split_slash_cons [] = ([], [], refl)
split_slash_cons (b ∷ s) =
    let (f, fs, e) = split_slash_cons s in
    elim (Bool-cases (b == b'/')) [
      | inl y ↦ ([], f ∷ fs, rw (e, y) refl)
      | inr n ↦ (b ∷ f, fs, rw (e, n) refl)
    ]

-- A slash behind a text without one ends the first segment.
pub split_slash-append :
    (x s : Text) → count_slash x ≡ 0 → split_slash (x ++ (b'/' ∷ s)) ≡ x ∷ split_slash s
unfolding split_slash
split_slash-append [] s h = let (f, fs, e) = split_slash_cons s in rw e refl
split_slash-append (b ∷ x) s h =
    let plain : (b == b'/') ≡ false = ground arith in
    let rest : count_slash x ≡ 0 = ground arith in rw (split_slash-append x s rest, plain) refl

pub split_slash_alone : (x : Text) → count_slash x ≡ 0 → split_slash x ≡ x ∷ []
unfolding split_slash
split_slash_alone [] h = refl
split_slash_alone (b ∷ x) h =
    let plain : (b == b'/') ≡ false = ground arith in
    let rest : count_slash x ≡ 0 = ground arith in rw (split_slash_alone x rest, plain) refl

length-split_slash : (s : Text) → length (split_slash s) ≡ suc (count_slash s)
unfolding split_slash
length-split_slash [] = refl
length-split_slash (b ∷ s) =
    let (f, fs, e) = split_slash_cons s in
    let size : suc (length fs) ≡ suc (count_slash s) = ap length (sym e) ∙ length-split_slash s in
    elim (Bool-cases (b == b'/')) [
      | inl y ↦ rw (e, y) (omega (arith, size))
      | inr n ↦ rw (e, n) size
    ]

pub count_slash-append : (s t : Text) → count_slash (s ++ t) ≡ count_slash s + count_slash t
count_slash-append [] t = omega arith
count_slash-append (b ∷ s) t = ground (arith, count_slash-append s t)

match_segments_longer :
    (ps : List Segment) (ts : List Text) → length ps < length ts → match_segments ps ts ≡ none
unfolding match_segments
match_segments_longer [] [] h = absurd (omega arith)
match_segments_longer [] (t ∷ ts) h = refl
match_segments_longer (lit s ∷ ps) (t ∷ ts) h =
    let rest = match_segments_longer ps ts (omega arith) in ground (arith, rest)
match_segments_longer (wild ∷ ps) (t ∷ ts) h =
    let rest = match_segments_longer ps ts (omega arith) in rw rest refl
match_segments_longer (p ∷ ps) [] h = absurd (omega arith)

first_match_longer :
    (method : Text) (ss : List Text) (rs : List Route)
    → All (λ r. length r.path < length ss) rs
    → first_match method ss rs ≡ none
unfolding first_match match_route
first_match_longer method ss [] h = refl
first_match_longer method ss (r ∷ rs) h =
    let here = match_segments_longer r.path ss h.0 in
    let others = first_match_longer method ss rs h.1 in
    elim (Bool-cases (method_matches r.method method)) [
      | inl y ↦ rw (y, first_match, match_route) (rw here others)
      | inr n ↦ rw (n, first_match, match_route) others
    ]

-- No pattern has more than three segments.
pub dispatch_deep : (method s : Text) → 2 < count_slash s → dispatch method (b'/' ∷ s) ≡ none
unfolding dispatch routes
dispatch_deep method s h =
    let path = b'/' ∷ s in
    let parts = map segment_text (segments path) in
    let size : 3 < length parts =
      unfold segments in
      omega (arith, length-split_slash s, length-map segment_text (split_slash s)) in
    let l : (n : ℕ) → n ≤ 3 → n < length parts = λ n k. omega (arith, size) in
    let all : All (λ r. length r.path < length parts) routes = (
      l 1 (omega arith),
      (
        l 1 (omega arith),
        (
          l 1 (omega arith),
          (
            l 1 (omega arith),
            (
              l 2 (omega arith),
              (
                l 2 (omega arith),
                (
                  l 3 (omega arith),
                  (
                    l 3 (omega arith),
                    (
                      l 3 (omega arith),
                      (
                        l 3 (omega arith),
                        (l 2 (omega arith), (l 1 (omega arith), (l 3 (omega arith), tt))),
                      ),
                    ),
                  ),
                ),
              ),
            ),
          ),
        ),
      ),
    ) in
    rw (first_match_longer method parts routes all) (ground arith)
