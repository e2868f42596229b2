-- ===== src/Api/Server/Paths.antt =====
-- internal/api/server.go: where the mux sends the paths that the worker, the command line client and the
-- benchmark build.
use jobqueue.Common.{
  if◌then◌else◌, All, leb_ℤ, pos, Text, text, text_eq, print_nat, print_nat-All,
  parse_int-print_nat, ℕ, ◌^◌, ◌≤◌, ◌<◌, ◌≡◌, refl, sym, ap, subst, ◌∙◌, segment_text_plain,
  is_plain, IsPlain, Bool, true, false, Option, none, some, [], ◌∷◌, ◌++◌, arith,
}
use jobqueue.Api.Server.{to_get, to_cancel, to_complete, to_fail, to_renew, to_heartbeat}
use jobqueue.Api.Server.Routing.{
  segments, is_segment, every, match_segments, method_matches, match_route, first_match, dispatch,
  count_slash, split_slash-append, split_slash_alone,
}
use jobqueue.Api.Requests.{path_id}

-- Two literals around a segment.
segments_around :
    (x : Text) (a b : Text)
    → count_slash a ≡ 0
    → count_slash x ≡ 0
    → count_slash b ≡ 0
    → segments (b'/' ∷ (a ++ (b'/' ∷ (x ++ (b'/' ∷ b))))) ≡ a ∷ x ∷ b ∷ []
unfolding segments
segments_around x a b ha hx hb =
    split_slash-append a (x ++ (b'/' ∷ b)) ha
    ∙ ap (◌∷◌ a) (split_slash-append x b hx ∙ ap (◌∷◌ x) (split_slash_alone b hb))

pub path_id-print_nat : (i : ℕ) → 0 < i → i < 2 ^ 63 → path_id (print_nat i) ≡ some i
unfolding path_id
path_id-print_nat i lo hi =
    let positive : leb_ℤ (pos i) (pos 0) ≡ false = ground arith in
    rw (parse_int-print_nat i hi, path_id) (rw positive refl)

print_nat-IsPlain : (i : ℕ) → IsPlain (print_nat i)
print_nat-IsPlain i =
    let (b, t, e, first, others) =
      print_nat-All (λ b. is_plain b ≡ true) (λ b lo hi. ground arith) i in
    subst IsPlain (sym e) (first, others)

-- A number printed is one clean segment.
pub print_nat_segment :
    (i : ℕ)
    → (count_slash (print_nat i) ≡ 0) × (is_segment (print_nat i) ≡ true) × IsPlain (print_nat i)
unfolding is_segment text_eq
print_nat_segment i =
    let (b, t, e, first, others) = print_nat-All (λ b. b'0' ≤ b) (λ b lo hi. lo) i in
    let numeric = print_nat-IsPlain i in
    rw e (
      ground (arith, first, digits_count_slash t others),
      ground (arith, first),
      subst IsPlain e numeric,
    )
  where
    digits_count_slash : (t : Text) → All (λ b. b'0' ≤ b) t → count_slash t ≡ 0
    digits_count_slash [] h = refl
    digits_count_slash (b ∷ t) h = ground (arith, h.0, digits_count_slash t h.1)

-- A test that does not matter.
same_either : (b : Bool) (o : Option Text) → (if b then o else o) ≡ o
same_either true o = refl
same_either false o = refl

-- The paths of three segments, with anything clean in the middle.
module _ (x : Text) (plain : count_slash x ≡ 0) (clean : is_segment x ≡ true)
    (kept : IsPlain x) where
  pub dispatch_complete :
      dispatch (text "POST") (text "/jobs/" ++ (x ++ text "/complete")) ≡ some (to_complete, x)
  unfolding dispatch every first_match match_route match_segments method_matches text_eq
  dispatch_complete = rw (segments_around x (text "jobs") (text "complete") refl plain refl) (
      rw (segment_text_plain x kept) (rw (clean, same_either (text_eq (text "claim") x) none) refl))

  pub dispatch_fail :
      dispatch (text "POST") (text "/jobs/" ++ (x ++ text "/fail")) ≡ some (to_fail, x)
  unfolding dispatch every first_match match_route match_segments method_matches text_eq
  dispatch_fail = rw (segments_around x (text "jobs") (text "fail") refl plain refl) (
      rw (segment_text_plain x kept) (rw (clean, same_either (text_eq (text "claim") x) none) refl))

  pub dispatch_lease :
      dispatch (text "POST") (text "/jobs/" ++ (x ++ text "/lease")) ≡ some (to_renew, x)
  unfolding dispatch every first_match match_route match_segments method_matches text_eq
  dispatch_lease = rw (segments_around x (text "jobs") (text "lease") refl plain refl) (
      rw (segment_text_plain x kept) (rw (clean, same_either (text_eq (text "claim") x) none) refl))

  pub dispatch_cancel :
      dispatch (text "POST") (text "/jobs/" ++ (x ++ text "/cancel")) ≡ some (to_cancel, x)
  unfolding dispatch every first_match match_route match_segments method_matches text_eq
  dispatch_cancel = rw (segments_around x (text "jobs") (text "cancel") refl plain refl) (
      rw (segment_text_plain x kept) (rw (clean, same_either (text_eq (text "claim") x) none) refl))

  pub dispatch_heartbeat :
      dispatch (text "POST") (text "/workers/" ++ (x ++ text "/heartbeat")) ≡ some (to_heartbeat, x)
  unfolding dispatch every first_match match_route match_segments method_matches text_eq
  dispatch_heartbeat = rw (segments_around x (text "workers") (text "heartbeat") refl plain refl) (
      rw (segment_text_plain x kept)
        (rw (clean, same_either (text_eq (text "register") x) none) refl))

  pub dispatch_get : dispatch (text "GET") (text "/jobs/" ++ x) ≡ some (to_get, x)
  unfolding dispatch every first_match match_route match_segments method_matches text_eq segments
  dispatch_get =
      rw
        (split_slash-append (text "jobs") x refl
          ∙ ap (◌∷◌ (text "jobs")) (split_slash_alone x plain))
        (rw (segment_text_plain x kept) (rw clean refl))
