-- ===== src/Cli.antt =====
-- cmd/queue/main.go: the command line client: its dispatch, the wait for a job's end and the text that it
-- prints.
pub mod Calls
pub mod Print
pub mod Lines
pub mod Commands
use jobqueue.Common.{
  if◌then◌else◌, Bool-cases, length, take, length-append, length-take, leb, ltb, leb_ℤ, pos_part,
  pos, parse_int, Text, text, text_eq, has_suffix, ◌==◌, ℕ, zero, suc, ◌+◌, ◌-◌, ◌<◌, ◌≤◌, ◌≡◌,
  refl, sym, ap, subst, ◌∙◌, ◌⊎◌, inl, inr, Bool, true, false, ◌||◌, Option, none, some, List, [],
  ◌∷◌, ◌++◌, arith,
}
use jobqueue.Jobs.{Status, Job, pending, running, completed, failed, canceled}

pub data Command : Type 0 where
  submits reads lists cancels_one shows_workers shows_stats : Command

-- What `run` does with the arguments.
pub data Dispatch : Type 0 where
  no_command shows_usage : Dispatch
  runs : Command → List Text → Dispatch
  unknown_command : Text → Dispatch

unfoldable pub run : List Text → Dispatch
unfolding text_eq
run [] = no_command
run (name ∷ args) =
    if text_eq name (text "submit")
    then runs submits args
    else if text_eq name (text "get")
    then runs reads args
    else if text_eq name (text "list")
    then runs lists args
    else if text_eq name (text "cancel")
    then runs cancels_one args
    else if text_eq name (text "workers")
    then runs shows_workers args
    else if text_eq name (text "stats")
    then runs shows_stats args
    else if text_eq name (text "help") || text_eq name (text "-h") || text_eq name (text "--help")
    then shows_usage
    else unknown_command name

pub data IdError : Type 0 where
  missing_id : IdError
  invalid_id : Text → IdError

-- The arguments that the flags leave.
unfoldable pub positional_id : List Text → IdError ⊎ ℕ
unfolding parse_int
positional_id [] = inl missing_id
positional_id (arg ∷ args) = elim (parse_int arg) [
  | none ↦ inl (invalid_id arg)
  | some id ↦ if leb_ℤ id (pos 0) then inl (invalid_id arg) else inr (pos_part id)
]

abbrev pub is_terminal : Status → Bool
is_terminal pending = false
is_terminal running = false
is_terminal completed = true
is_terminal failed = true
is_terminal canceled = true

-- How waitForTerminal ends, or that it goes on.
pub data Waiting : Type 0 where
  finished : Job → Waiting
  refused : Text → Waiting
  timed_out : Status → Waiting
  polling : Waiting

-- The loop from a poll on: `answers` are the server's, and `late` tells whether the deadline has passed
-- behind a poll. `fuel` is the number of polls looked at.
unfoldable pub wait_from : (ℕ → Text ⊎ Job) → (ℕ → Bool) → ℕ → ℕ → Waiting
wait_from answers late zero k = polling
wait_from answers late (suc fuel) k =
    let more = wait_from answers late fuel (k + 1) in
    elim (answers k) [
      | inl msg ↦ refused msg
      | inr job ↦
          if is_terminal job.status
          then finished job
          else if late k
          then timed_out job.status
          else more
    ]

abbrev pub wait_for_terminal : (ℕ → Text ⊎ Job) → (ℕ → Bool) → ℕ → Waiting
unfolding wait_from
wait_for_terminal answers late fuel = wait_from answers late fuel 0

-- A poll that shows a job on its way, in time.
abbrev pub IsOnItsWay : (ℕ → Text ⊎ Job) → (ℕ → Bool) → ℕ → Type 0
IsOnItsWay answers late k =
    (job : Job) × (answers k ≡ inr job) × (is_terminal job.status ≡ false) × (late k ≡ false)

wait_at :
    (answers : ℕ → Text ⊎ Job) (late : ℕ → Bool) (job : Job) (n k : ℕ)
    → ((i : ℕ) → i < n → IsOnItsWay answers late (k + i))
    → answers (k + n) ≡ inr job
    → is_terminal job.status ≡ true
    → wait_from answers late (suc n) k ≡ finished job
unfolding wait_from
wait_at answers late job zero k before h t =
    let here : answers k ≡ inr job = ap answers (omega arith) ∙ h in
    rw (here, wait_from) (rw t refl)
wait_at answers late job (suc n) k before h t =
    let first : k + 0 ≡ k = omega arith in
    let (j, e, moving, soon) = subst (IsOnItsWay answers late) first (before 0 (omega arith)) in
    let shift : (i : ℕ) → k + suc i ≡ k + 1 + i = λ i. omega arith in
    rw (e, wait_from)
      (rw (moving, soon)
        (wait_at answers late job n (k + 1)
          (λ i l. subst (IsOnItsWay answers late) (shift i) (before (suc i) (omega arith)))
          (ap answers (sym (shift n)) ∙ h) t))

-- A wait returns the job of the first poll that shows it COMPLETED, FAILED or CANCELED, if every poll
-- before was answered with a job in another status before the deadline; one poll more than those is
-- enough.
pub wait_for_terminal_lem :
    (answers : ℕ → Text ⊎ Job) (late : ℕ → Bool) (job : Job) (n : ℕ)
    → ((i : ℕ) → i < n → IsOnItsWay answers late (0 + i))
    → answers (0 + n) ≡ inr job
    → is_terminal job.status ≡ true
    → wait_for_terminal answers late (suc n) ≡ finished job
unfolding wait_for_terminal wait_from
wait_for_terminal_lem answers late job n before h t = wait_at answers late job n 0 before h t

-- A nil or empty string is the default.
unfoldable pub str_val : Option Text → Text → Text
unfolding text_eq
str_val none default_value = default_value
str_val (some s) default_value = if text_eq s [] then default_value else s

-- strings.ReplaceAll of a newline by a space.
abbrev pub one_line : Text → Text
one_line [] = []
one_line (b ∷ s) = (if b == 10 then 32 else b) ∷ one_line s

-- The slice is out of range, and the code panics, below 3.
unfoldable pub truncate : Text → ℕ → Option Text
truncate s n =
    if leb (length (one_line s)) n
    then some (one_line s)
    else if ltb n 3
    then none
    else some (take (n - 3) (one_line s) ++ text "...")

length-one_line : (s : Text) → length (one_line s) ≡ length s
length-one_line [] = refl
length-one_line (b ∷ s) = ap suc (length-one_line s)

-- A column of at least three bytes never overflows: what is printed has at most n bytes, and it is the
-- whole text on one line if that fits.
pub truncate_lem :
    (s : Text) (n : ℕ)
    → 3 ≤ n
    → (t : Text) × (truncate s n ≡ some t) × (length t ≤ n) × (length s ≤ n → t ≡ one_line s)
unfolding truncate
truncate_lem s n h =
    let size = length-one_line s in
    elim (Bool-cases (leb (length (one_line s)) n)) [
      | inl y ↦ (one_line s, rw y refl, ground arith, λ _. refl)
      | inr f ↦
          let wide : ltb n 3 ≡ false = ground arith in
          let cut = take (n - 3) (one_line s) in
          let long : length (cut ++ text "...") ≤ n =
            omega (arith, length-append cut (text "..."), length-take (n - 3) (one_line s)) in
          (cut ++ text "...", rw (f, wide) refl, long, λ k. absurd (ground arith))
    ]

unfoldable pub ensure_newline : Text → Text
unfolding has_suffix
ensure_newline s = if has_suffix s (10 ∷ []) then s else s ++ (10 ∷ [])
