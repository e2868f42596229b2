-- ===== src/Bench.antt =====
-- cmd/queue-bench: the benchmark, a client of the server that measures it (main.go), and its race of
-- concurrent claimers (claim.go).
pub mod Http
pub mod Levels
pub mod Tally
pub mod Claimer
pub mod Race
pub mod Run
pub mod Queue
pub mod Median
pub mod Phases
pub mod Table
pub mod Cleanup
