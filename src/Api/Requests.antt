-- ===== src/Api/Requests.antt =====
-- internal/api/server.go: what the handlers read of a request.
use jobqueue.Common.{
  if◌then◌else◌, Bool-cases, Option-cases, pos_part, ◌≤ℤ◌, ltb_ℤ, leb_ℤ, ℤ, pos, Text, text,
  text_eq, parse_int, parse_int_range, ℕ, ◌^◌, ◌<◌, ◌≡◌, ◌⊎◌, inl, inr, Bool, true, false, Option,
  none, some, [], arith,
}
use jobqueue.Api.{ServerConfig, Message, literal, malformed_json}

-- How encoding/json's decoder, with unknown fields disallowed and the body capped, can fail.
pub data DecodeError : Type 0 where
  too_large eof : DecodeError
  malformed : Text → DecodeError

-- What the decoder makes of the body: the first value, and whether more follows it.
pub record Decoded (A : Type 0) : Type 0 where
  pub first : DecodeError ⊎ A
  pub more : Bool

abbrev decode_message : DecodeError → Message
decode_message too_large = literal (text "request body too large")
decode_message eof = literal (text "request body is empty; expected a JSON object")
decode_message (malformed msg) = malformed_json msg

abbrev check_more : {A : Type 0} → Bool → A → Message ⊎ A
check_more true a = inl (literal (text "unexpected trailing content after JSON object"))
check_more false a = inr a

unfoldable pub decode : {A : Type 0} → Decoded A → Message ⊎ A
decode d = elim d.first [ inl e ↦ inl (decode_message e) | inr a ↦ check_more d.more a ]

-- The {id} wildcard, as a positive int64.
unfoldable pub path_id : Text → Option ℕ
unfolding parse_int
path_id raw = elim (parse_int raw) [
  | none ↦ none
  | some id ↦ if leb_ℤ id (pos 0) then none else some (pos_part id)
]

-- An optional query parameter: its value, or the message of the refusal.
unfoldable pub int_param : Text → ℕ → Text ⊎ ℕ
unfolding parse_int text_eq
int_param raw default_value = if text_eq raw [] then inr default_value else elim (parse_int raw) [
  | none ↦ inl (text "must be an integer")
  | some n ↦ if ltb_ℤ n (pos 0) then inl (text "must not be negative") else inr (pos_part n)
]

-- A float64 of seconds, as the code reads it: the test `seconds <= 0`, and the time.Duration that
-- seconds * float64(time.Second) converts to.
pub record Seconds : Type 0 where
  pub not_positive : Bool
  pub duration : ℤ

unfoldable pub clamp_lease : ServerConfig → Seconds → ℤ
clamp_lease cfg seconds =
    if seconds.not_positive
    then cfg.default_lease
    else if ltb_ℤ seconds.duration cfg.min_lease
    then cfg.min_lease
    else if ltb_ℤ cfg.max_lease seconds.duration
    then cfg.max_lease
    else seconds.duration

-- A lease is the server's default, or within the bounds that it sets, whatever the worker asks for.
pub clamp_lease_bounds :
    (cfg : ServerConfig) (seconds : Seconds)
    → cfg.min_lease ≤ℤ cfg.max_lease
    → ((seconds.not_positive ≡ true) × (clamp_lease cfg seconds ≡ cfg.default_lease))
      ⊎ ((cfg.min_lease ≤ℤ clamp_lease cfg seconds) × (clamp_lease cfg seconds ≤ℤ cfg.max_lease))
unfolding clamp_lease
clamp_lease_bounds cfg seconds h = elim (Bool-cases seconds.not_positive) [
  | inl y ↦ inl (y, rw y)
  | inr n ↦ inr (ground arith)
]

-- An id that the path gives is positive and below 2^63.
pub path_id_range : (raw : Text) (i : ℕ) → path_id raw ≡ some i → (0 < i) × (i < 2 ^ 63)
unfolding path_id
path_id_range raw i h = elim (Option-cases (parse_int raw)) [
  | inl e ↦ ground arith
  | inr (n, e) ↦ ground (arith, parse_int_range raw n e)
]
