-- ===== src/Store/Reads.antt =====
-- internal/jobs/store.go: `Create`, `Get`, `List`, `Stats`.
use jobqueue.Common.{
  ◌==◌, if◌then◌else◌, length, take, drop, select, pos_part, ◌≤ℤ◌, ltb_ℤ, leb_ℤ, ℤ, pos, negsuc,
  Text, text_eq, sort_by, ℕ, suc, ◌≡◌, Bool, ◌||◌, Option, none, some, List, [], ◌∷◌, reverse,
  arith,
}
use jobqueue.Jobs.{
  status_text, status_eq, Status, Job, pending, running, completed, failed, canceled, not_found,
  database, ok, err,
}
use jobqueue.Store.{find, Tx, has_id, Db, Clock}

-- The row that INSERT makes of the three values, by the defaults of migrations/001_init.sql.
unfoldable pub new_job : Clock → ℕ → Text → Text → ℕ → Job
new_job c id type payload max_attempts = record {
  id = id;
  type = type;
  payload = payload;
  status = pending;
  attempts = 0;
  max_attempts = max_attempts;
  created_at = c.now;
  updated_at = c.now;
  available_at = c.now;
  worker_id = none;
  lease_until = none;
  last_error = none;
  result_stdout = none;
  result_stderr = none;
  result_exit_code = none;
  duration_ms = none;
}

-- A number outside INTEGER is refused before the statement runs. One that violates the CHECK is
-- refused after the id was drawn, and a sequence does not roll back.
unfoldable pub create : Clock → Text → Text → ℤ → Tx Job
unfolding new_job
create c type payload max_attempts db =
    if ltb_ℤ max_attempts (negsuc 2147483647) || ltb_ℤ (pos 2147483647) max_attempts
    then (err database, db)
    else if ltb_ℤ max_attempts (pos 1)
    then (err database, record db { next_id = suc db.next_id })
    else (
      ok (new_job c db.next_id type payload (pos_part max_attempts)),
      record db {
        jobs = new_job c db.next_id type payload (pos_part max_attempts) ∷ db.jobs;
        next_id = suc db.next_id;
      },
    )

pub create_in_range :
    (c : Clock) (type payload : Text) (n : ℤ) (db : Db)
    → pos 1 ≤ℤ n
    → n ≤ℤ pos 100
    → create c type payload n db ≡ (
      ok (new_job c db.next_id type payload (pos_part n)),
      record db {
        jobs = new_job c db.next_id type payload (pos_part n) ∷ db.jobs;
        next_id = suc db.next_id;
      },
    )
unfolding create
create_in_range c type payload n db lo hi = ground arith

-- The row of an id, or `not_found`.
unfoldable pub get : ℕ → Tx Job
unfolding find
get i db = elim (find (has_id i) db.jobs) [ none ↦ (err not_found, db) | some j ↦ (ok j, db) ]

-- $1 IS NULL OR status = $1; the empty string is passed as NULL.
abbrev pub status_matches : Text → Job → Bool
status_matches status j = text_eq status [] || text_eq (status_text j.status) status

abbrev pub list_limit : ℤ → ℕ
list_limit limit = if leb_ℤ limit (pos 0) || ltb_ℤ (pos 500) limit then 100 else pos_part limit

abbrev pub list_offset : ℤ → ℕ
list_offset offset = if ltb_ℤ offset (pos 0) then 0 else pos_part offset

-- ORDER BY id DESC is the ascending order, reversed.
unfoldable pub list : Text → ℤ → ℤ → Db → List Job
list status limit offset db = take (list_limit limit) (
    drop (list_offset offset)
      (reverse (sort_by (λ j. j.id) (select (status_matches status) db.jobs))))

abbrev pub all_statuses : List Status
all_statuses = pending ∷ running ∷ completed ∷ failed ∷ canceled ∷ []

abbrev count_status : Status → List Job → ℕ
count_status s js = length (select (λ j. status_eq j.status s) js)

-- SELECT status, count(*) GROUP BY status: a row for each status that a job has.
groups : List Job → List Status → List (Status × ℕ)
groups js [] = []
groups js (s ∷ ss) =
    let rest = groups js ss in
    if 0 == count_status s js then rest else (s, count_status s js) ∷ rest

-- A Go map from statuses to counts; `none` is a missing key.
abbrev pub Stats : Type 0
Stats = Status → Option ℕ

abbrev write : Stats → Status × ℕ → Stats
write m (s, n) t = if status_eq s t then some n else m t

seed : List Status → Stats
seed [] t = none
seed (s ∷ ss) t = if status_eq s t then some 0 else seed ss t

write_all : Stats → List (Status × ℕ) → Stats
write_all m [] = m
write_all m (g ∷ gs) = write_all (write m g) gs

unfoldable pub stats : Db → Stats
unfolding groups seed write_all
stats db = write_all (seed all_statuses) (groups db.jobs all_statuses)

-- Every status has a key, and its value is the number of jobs in that status.
pub stats_lem :
    (db : Db) (s : Status) → stats db s ≡ some (length (select (λ j. status_eq j.status s) db.jobs))
unfolding stats
stats_lem db pending = ground arith
stats_lem db running = ground arith
stats_lem db completed = ground arith
stats_lem db failed = ground arith
stats_lem db canceled = ground arith
