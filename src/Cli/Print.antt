-- ===== src/Cli/Print.antt =====
-- cmd/queue/main.go: the lines that the commands print. `stamp` is the local time in RFC 3339, and `ago` the
-- time since a moment in whole seconds.
use jobqueue.Common.{
  ltb, ◌==◌, if◌then◌else◌, Text, text, text_eq, print_nat, print_int, pad_right, newline, ℕ, ◌&&◌,
  Option, none, some, List, [], ◌∷◌, ◌++◌,
}
use jobqueue.Jobs.{status_text, status_eq, Status, Job, Worker, pending}
use jobqueue.Store.Reads.{all_statuses, Stats}
use jobqueue.Cli.{str_val, truncate, ensure_newline}

abbrev pub line : Text → Text
line s = s ++ newline

-- Nothing for an absent value.
abbrev optional : {A : Type 0} → (A → Text) → Option A → Text
optional f none = []
optional f (some a) = f a

abbrev unless_empty : (Text → Text) → Text → Text
unfolding text_eq
unless_empty f s = if text_eq s [] then [] else f s

unfoldable pub print_job : (ℕ → Text) → Job → Text
unfolding print_nat print_int status_text str_val ensure_newline unless_empty
print_job stamp j =
    line (text "ID:        " ++ print_nat j.id)
    ++ line (text "Status:    " ++ status_text j.status)
    ++ line (text "Type:      " ++ j.type)
    ++ line (text "Payload:   " ++ j.payload)
    ++ line (text "Attempts:  " ++ (print_nat j.attempts ++ (text "/" ++ print_nat j.max_attempts)))
    ++ line (text "Worker:    " ++ str_val j.worker_id (text "-"))
    ++ line (text "Created:   " ++ stamp j.created_at)
    ++ optional (λ d. line (text "Duration:  " ++ (print_int d ++ text "ms"))) j.duration_ms
    ++ optional (λ c. line (text "Exit code: " ++ print_int c)) j.result_exit_code
    ++ optional (λ t. line (text "Lease:     until " ++ stamp t)) j.lease_until
    ++ (if status_eq j.status pending && ltb 0 j.attempts
        then line (text "Retry at:  " ++ stamp j.available_at)
        else [])
    ++ unless_empty (λ s. line (text "Error:     " ++ s)) (str_val j.last_error [])
    ++ unless_empty (λ s. line (text "--- stdout ---") ++ ensure_newline s)
        (str_val j.result_stdout [])
    ++ unless_empty (λ s. line (text "--- stderr ---") ++ ensure_newline s)
        (str_val j.result_stderr [])

-- The payload's column: 40 bytes at most. Above 3 the slice is in range.
unfoldable pub column : Text → Text
unfolding truncate
column s = elim (truncate s 40) [ none ↦ [] | some t ↦ t ]

unfoldable pub job_line : Job → Text
unfolding print_nat status_text str_val column
job_line j = line (
    pad_right 6 (print_nat j.id)
    ++ (text " "
        ++ (pad_right 10 (status_text j.status)
            ++ (text " "
                ++ (pad_right 9 (print_nat j.attempts ++ (text "/" ++ print_nat j.max_attempts))
                    ++ (text " "
                        ++ (pad_right 22 (str_val j.worker_id (text "-"))
                            ++ (text " " ++ column j.payload))))))))

unfoldable pub jobs_header : Text
jobs_header = line (
    pad_right 6 (text "ID")
    ++ (text " "
        ++ (pad_right 10 (text "STATUS")
            ++ (text " "
                ++ (pad_right 9 (text "ATTEMPTS")
                    ++ (text " " ++ (pad_right 22 (text "WORKER") ++ text " PAYLOAD")))))))

abbrev pub all_lines : {A : Type 0} → (A → Text) → List A → Text
all_lines f [] = []
all_lines f (a ∷ as') = f a ++ all_lines f as'

unfoldable pub print_jobs : List Job → ℕ → Text
unfolding jobs_header job_line
print_jobs js count =
    if count == 0 then line (text "No jobs.") else jobs_header ++ all_lines job_line js

unfoldable pub worker_line : (ℕ → Text) → Worker → Text
unfolding print_nat
worker_line ago w = line (
    pad_right 26 w.row.id
    ++ (text " "
        ++ (pad_right 8 (if w.alive then text "true" else text "false")
            ++ (text " "
                ++ (pad_right 10 (print_nat w.row.jobs_processed)
                    ++ (text " "
                        ++ (pad_right 11
                              (elim w.row.current_job_id [ none ↦ text "-" | some i ↦ print_nat i ])
                            ++ (text " " ++ (ago w.row.last_heartbeat ++ text " ago")))))))))

unfoldable pub workers_header : Text
workers_header = line (
    pad_right 26 (text "ID")
    ++ (text " "
        ++ (pad_right 8 (text "ALIVE")
            ++ (text " "
                ++ (pad_right 10 (text "PROCESSED")
                    ++ (text " "
                        ++ (pad_right 11 (text "CURRENT JOB") ++ text " LAST HEARTBEAT")))))))

unfoldable pub print_workers : (ℕ → Text) → List Worker → ℕ → Text
unfolding workers_header worker_line
print_workers ago ws count =
    if count == 0
    then line (text "No workers registered.")
    else workers_header ++ all_lines (worker_line ago) ws

abbrev status_line : Stats → Status → Text
unfolding print_nat status_text
status_line s status = line (
    text "  "
    ++ (pad_right 10 (status_text status ++ text ":")
        ++ (text " " ++ print_nat (elim (s status) [ none ↦ 0 | some n ↦ n ]))))

unfoldable pub print_stats : Stats → ℕ → ℕ → Text
unfolding print_nat status_line
print_stats s total alive =
    line (text "Jobs:")
    ++ all_lines (status_line s) all_statuses
    ++ line (
        text "Workers: "
        ++ (print_nat alive ++ (text " alive / " ++ (print_nat total ++ text " total"))))
