-- ===== src/Cli/Lines.antt =====
-- The lines of the list of jobs.
use jobqueue.Common.{
  leb, ◌==◌, if◌then◌else◌, Bool-cases, length, take, All, Text, text, print_nat, print_nat-All,
  repeat, pad_right, newline, ℕ, zero, suc, ◌+◌, ◌-◌, ◌<◌, ◌≡◌, refl, inl, inr, false, List, [],
  ◌∷◌, ◌++◌, arith,
}
use jobqueue.Jobs.{status_text, Status, Job, pending, running, completed, failed, canceled}
use jobqueue.Cli.{str_val, one_line, truncate}
use jobqueue.Cli.Print.{line, column, job_line, jobs_header, all_lines, print_jobs}

abbrev pub count_newlines : Text → ℕ
count_newlines [] = 0
count_newlines (b ∷ s) = (if b == 10 then 1 else 0) + count_newlines s

count_newlines-append : (s t : Text) → count_newlines (s ++ t) ≡ count_newlines s + count_newlines t
count_newlines-append [] t = omega arith
count_newlines-append (b ∷ s) t = omega (arith, count_newlines-append s t)

-- A text within a line.
abbrev pub IsInline : Text → Type 0
IsInline s = count_newlines s ≡ 0

append-IsInline : (s t : Text) → IsInline s → IsInline t → IsInline (s ++ t)
append-IsInline s t h k = omega (arith, count_newlines-append s t, h, k)

line_count : (s : Text) → IsInline s → count_newlines (line s) ≡ 1
line_count s h = omega (arith, count_newlines-append s newline, h)

repeat-IsInline : (n : ℕ) → IsInline (repeat n b' ')
repeat-IsInline zero = refl
repeat-IsInline (suc n) = omega (arith, repeat-IsInline n)

pad_right-IsInline : (n : ℕ) (s : Text) → IsInline s → IsInline (pad_right n s)
unfolding pad_right
pad_right-IsInline n s h =
    append-IsInline s (repeat (n - length s) b' ') h (repeat-IsInline (n - length s))

All-IsInline : (t : Text) → All (λ b. 10 < b) t → IsInline t
All-IsInline [] h = refl
All-IsInline (b ∷ t) h = ground (arith, h.0, All-IsInline t h.1)

print_nat-IsInline : (n : ℕ) → IsInline (print_nat n)
print_nat-IsInline n =
    let (b, t, e, first, others) = print_nat-All (λ b. 10 < b) (λ b lo hi. omega (arith, lo)) n in
    rw e (All-IsInline (b ∷ t) (first, others))

status_text-IsInline : (s : Status) → IsInline (status_text s)
unfolding status_text
status_text-IsInline pending = refl
status_text-IsInline running = refl
status_text-IsInline completed = refl
status_text-IsInline failed = refl
status_text-IsInline canceled = refl

one_line-IsInline : (s : Text) → IsInline (one_line s)
one_line-IsInline [] = refl
one_line-IsInline (b ∷ s) = ground (arith, one_line-IsInline s)

take-IsInline : (n : ℕ) (s : Text) → IsInline s → IsInline (take n s)
take-IsInline zero s h = refl
take-IsInline (suc n) [] h = refl
take-IsInline (suc n) (b ∷ s) h = ground (arith, take-IsInline n s)

column-IsInline : (s : Text) → IsInline (column s)
unfolding column truncate
column-IsInline s = elim (Bool-cases (leb (length (one_line s)) 40)) [
  | inl y ↦ rw (y, column, truncate) (one_line-IsInline s)
  | inr n ↦
      rw (n, column, truncate)
        (append-IsInline (take 37 (one_line s)) (text "...")
          (take-IsInline 37 (one_line s) (one_line-IsInline s)) refl)
]

-- A cell, and the space behind it.
cell : (s rest : Text) → IsInline s → IsInline rest → IsInline (s ++ (text " " ++ rest))
cell s rest h k = append-IsInline s (text " " ++ rest) h (append-IsInline (text " ") rest refl k)

job_line_count :
    (j : Job) → IsInline (str_val j.worker_id (text "-")) → count_newlines (job_line j) ≡ 1
unfolding job_line
job_line_count j worker =
    let id = pad_right 6 (print_nat j.id) in
    let status = pad_right 10 (status_text j.status) in
    let budget = print_nat j.attempts ++ (text "/" ++ print_nat j.max_attempts) in
    let attempts = pad_right 9 budget in
    let name = pad_right 22 (str_val j.worker_id (text "-")) in
    let d = name ++ (text " " ++ column j.payload) in
    let c = attempts ++ (text " " ++ d) in
    let b = status ++ (text " " ++ c) in
    let budget_inline =
      append-IsInline (print_nat j.attempts) (text "/" ++ print_nat j.max_attempts)
        (print_nat-IsInline j.attempts)
        (append-IsInline (text "/") (print_nat j.max_attempts) refl
          (print_nat-IsInline j.max_attempts)) in
    let d_inline =
      cell name (column j.payload) (pad_right-IsInline 22 (str_val j.worker_id (text "-")) worker)
        (column-IsInline j.payload) in
    let c_inline = cell attempts d (pad_right-IsInline 9 budget budget_inline) d_inline in
    let b_inline =
      cell status c (pad_right-IsInline 10 (status_text j.status) (status_text-IsInline j.status))
        c_inline in
    line_count (id ++ (text " " ++ b))
      (cell id b (pad_right-IsInline 6 (print_nat j.id) (print_nat-IsInline j.id)) b_inline)

all_lines_count :
    (js : List Job)
    → All (λ j. IsInline (str_val j.worker_id (text "-"))) js
    → count_newlines (all_lines job_line js) ≡ length js
all_lines_count [] h = refl
all_lines_count (j ∷ js) h = omega (
  arith,
  count_newlines-append (job_line j) (all_lines job_line js),
  job_line_count j h.0,
  all_lines_count js h.1,
)

-- The list of jobs stays a table whatever the payloads hold: it has one line for each job, under one line of
-- header, or one line that says that there is none, provided that no worker's name has a newline.
pub print_jobs_lem :
    (js : List Job)
    → All (λ j. IsInline (str_val j.worker_id (text "-"))) js
    → count_newlines (print_jobs js (length js)) ≡ suc (length js)
unfolding print_jobs jobs_header pad_right
print_jobs_lem [] h = refl
print_jobs_lem (j ∷ js) h =
    let some_there : (length (j ∷ js) == 0) ≡ false = ground arith in
    rw some_there (
      omega (
        arith,
        count_newlines-append jobs_header (all_lines job_line (j ∷ js)),
        all_lines_count (j ∷ js) h,
      ))
