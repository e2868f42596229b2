-- ===== src/Entry.antt =====
-- cmd/server and cmd/worker: what the two processes make of their environment and flags.
pub mod Server
pub mod WorkerId
use jobqueue.Common.{
  if◌then◌else◌, Bool-cases, pos_part, neg_part, ℤ, pos, negsuc, Text, text, text_eq, parse_int,
  print_nat-All, print_int, parse_int-print_int, ◌+◌, ◌-◌, ◌*◌, ◌%◌, ◌^◌, ◌≤◌, ◌<◌, ◌≡◌, refl, ap,
  inl, inr, false, not, Option, none, some, [],
}
use jobqueue.Jobs.Backoff.{second, int64}

-- `env`: an unset variable reads as empty.
unfoldable pub env : Text → Text → Text
unfolding text_eq
env value default_value = if not (text_eq value []) then value else default_value

-- `envInt`.
unfoldable pub env_int : Text → ℤ → ℤ
unfolding text_eq parse_int
env_int value default_value =
    if not (text_eq value [])
    then elim (parse_int value) [ none ↦ default_value | some n ↦ n ]
    else default_value

-- `envFloat`, over strconv.ParseFloat and what it reads into.
unfoldable pub env_float : {F : Type 0} → (Text → Option F) → Text → F → F
unfolding text_eq
env_float parse_float value default_value =
    if not (text_eq value [])
    then elim (parse_float value) [ none ↦ default_value | some f ↦ f ]
    else default_value

-- time.Duration(n) * time.Second, over int64.
unfoldable pub seconds : ℤ → ℤ
unfolding int64
seconds (pos n) = int64 (n * second)
seconds (negsuc n) = int64 (2 ^ 64 - (n + 1) * second % 2 ^ 64)

pub data LogFormat : Type 0 where
  json_lines text_lines : LogFormat

-- `setupLogging`: the level that the text names, if it names one, and the handler.
unfoldable pub setup_logging : {Level : Type 0} → Level → Option Level → Text → Level × LogFormat
unfolding text_eq
setup_logging info named format = (
  elim named [ none ↦ info | some level ↦ level ],
  if text_eq format (text "json") then json_lines else text_lines,
)

print_int_some : (n : ℤ) → text_eq (print_int n) [] ≡ false
unfolding print_int text_eq
print_int_some (pos n) =
    let (b, t, e, _, _) = print_nat-All (λ b. Unit {0}) (λ b lo hi. tt) n in
    ap (λ s. text_eq s []) e
print_int_some (negsuc n) = refl

-- An integer setting is the default, or the number that the variable writes.
pub env_int_lem :
    (n default_value : ℤ)
    → pos_part n < 2 ^ 63
    → neg_part n ≤ 2 ^ 63
    → (env_int (print_int n) default_value ≡ n)
      × (env_int [] default_value ≡ default_value)
      × ((value : Text) → parse_int value ≡ none → env_int value default_value ≡ default_value)
unfolding env_int
env_int_lem n default_value low high = (
  rw (print_int_some n, env_int) (rw (parse_int-print_int n low high) refl),
  refl,
  λ value e. elim (Bool-cases (text_eq value [])) [
    | inl y ↦ rw y refl
    | inr written ↦ rw (written, env_int) (rw e refl)
  ],
)
