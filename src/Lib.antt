-- ===== src/Lib.antt =====
-- The job queue: a server that keeps jobs in a PostgreSQL database, workers that claim, execute and
-- report them over HTTP, and a reaper in the server that recovers the jobs of workers that went
-- silent.
--
-- The parts, and the files that model them:
--
--   Jobs            internal/jobs/job.go: the status, the rows, the sentinel errors.
--   Jobs/Validate   ValidateNew. Jobs/Backoff: BackoffConfig.Delay over int64, with its wrap-around.
--   Store           internal/jobs/store.go and migrations/001_init.sql: the two tables as a record
--                   `Db` of two lists, jobs with the newest first, and the next id. A method of
--                   Store is a function `Db → Result A × Db`; withTx puts the tables back on an
--                   error. Store/Reads: Create, Get, List, Stats; Store/Claim: Claim; Store/Report:
--                   RenewLease, Complete, Fail and Cancel; Store/Reap: ReapExpiredLeases;
--                   Store/Fleet: RegisterWorker, Heartbeat, ListWorkers.
--                   The modules below each hold what it does; Store/Pages has the order of a list
--                   and Store/Errors the errors.
--   Store/Machine   The methods that write, as the steps of one machine. Store/Invariant and
--                   Store/Lifecycle hold what is true of every run of it.
--   Api             internal/api: the replies and error codes (errors.go). Api/Requests, Api/Jobs,
--                   Api/Reports and Api/Workers: the handlers of server.go; Api/Server: its routes;
--                   Api/Middleware, Api/Writer and Api/Recovery: middleware.go; Api/Chain: ServeHTTP;
--                   Api/Reaper: reaper.go.
--                   Api/Server/Routing is the mux's table of routes and its choice of one.
--   Worker          internal/worker: Worker/Client reads the server's answers and Worker/Calls writes the
--                   requests (client.go), Worker/Buffer and Worker/Executor run a command
--                   (executor.go); Worker/Registration, Worker/Run (the claim loop and the heartbeats),
--                   Worker/Loop (the decisions behind a claim, renewal and execution) and Worker/Delivery
--                   (the report) are worker.go. Worker/Exactly puts the worker's report, a network
--                   that loses messages and the store together, and Worker/Attempts the claims of
--                   any number of workers.
--   Database        internal/database/database.go: Database/Connect has Open and WaitForDB,
--                   Database/Migrate the migrations.
--   Cli             cmd/queue: the choice of a command, the positional id and the wait for a job's end;
--                   Cli/Calls: `request` and the paths; Cli/Print: what is printed; Cli/Commands: the
--                   commands; Cli/Lines: how many lines a table has.
--   Bench           cmd/queue-bench, run against the model of the server: Bench/Http, Bench/Levels,
--                   Bench/Queue, Bench/Median, Bench/Table and Bench/Phases (main.go), Bench/Tally,
--                   Bench/Claimer, Bench/Race, Bench/Run and Bench/Cleanup (claim.go).
--   Entry           cmd/server and cmd/worker: the environment; Entry/Server: the start of the server;
--                   Entry/WorkerId: the worker's configuration and id.
--   Common          Lists, int64, strings of bytes and the paths of URLs, as the source uses them.
--   Scenarios       A small queue and the theorems at it.
--
-- How they interact: a handler of the server makes at most one call of the store and turns its result
-- into a reply; the worker reads the reply by its status, code and message; the reaper calls the store
-- on a ticker. The theorems follow the same path, from the rows that a statement writes, over the
-- transactions, to the requests and to the reports of a worker.
--
-- Time is a number, and a clock is the now() of a transaction with what adding and subtracting a
-- make_interval of a duration gives: the theorems hold for every such function. The rows that other
-- open transactions hold locked enter a claim and a sweep as a predicate, which SKIP LOCKED passes
-- over. Fail reads the attempts before its transaction, so the machine's step takes any number for
-- them. Texts are lists of bytes and lengths are numbers of bytes, as len counts them.
--
-- Bounds and fuel: the report loop has the four attempts of the source. Registration, the claim loop, the
-- client's wait for a job, the wait for the database and the benchmark's drain have no bound in the
-- source, or one by the clock: they take the number of attempts, polls or iterations to look at, and the
-- theorems about them say which number is enough. The benchmark's cleanup takes pages of pending
-- jobs, and its theorem says how many are enough. A race of claimers is the list of whose turn it is, and
-- the theorems hold for every list, or for every list that is long enough. trim_space has a
-- round for each byte, each round cutting off one at least, and print_nat more rounds than the number
-- has digits. All else is structural.
--
-- What is not modelled: connection faults of the database, and text that PostgreSQL refuses (a NUL, or
-- a rune that truncation has cut); READ COMMITTED below the granularity of a method, except for Fail;
-- the order of rows with equal keys; JSON, whose decoder's result is an input; floating point, so the
-- jitter of the polling, the conversion of lease_seconds and the benchmark's rates; goroutines, other
-- than as orders of their requests; tickers, signals, the parsing of flags, times of day and what is
-- logged, except for the level of the access log; a base URL with a path of its own; the limit on a body, which
-- net/http keeps, and what makes a handler panic.
mod Common
pub mod Jobs
pub mod Store
pub mod Api
pub mod Worker
pub mod Database
pub mod Cli
pub mod Bench
pub mod Entry
mod Scenarios
