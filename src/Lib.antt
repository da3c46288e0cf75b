-- ===== src/Lib.antt =====
-- multichain-indexer: a pipeline per chain that scans blocks for watched addresses. The coordinator
-- turns the chain's head and the stored watermark into fetch jobs, whose width an auto-tune
-- controller adapts; fetcher, normalizer and ingester carry the blocks to the store, and a
-- finalizer promotes what the chain has finalized. Paths below are from the repository's root.
--
--   Prelude           booleans, options, lists, Go's int64 (Prelude/Int: integers with the
--                     wrap-around of each operation that can leave the range) and Go strings
--                     (Prelude/Strings: bytes, with the functions of strings and strconv that the
--                     sources call; ASCII letters and spaces only)
--   Autotune          internal/pipeline/coordinator/autotune. Types and Construct are the structs and
--                     the constructor of autotune.go, Clamp, Signals, Telemetry and Resolve the parts
--                     of Controller.Resolve; Digest, Markers, Fence and Ordering are the parsers and
--                     the stage transitions of the rollback fence files; Policy is the rule table
--                     and policy_lineage.go. Bounds, Truth, Holds, Cooldown, Lineage, Window, Parsed,
--                     Normal and Stages hold the proofs.
--   Coordinator       internal/pipeline/coordinator/coordinator.go: a tick from the answers of its
--                     repositories and channels to the job and the backfill request it sends. Each
--                     tick asks the Autotune controller for its batch. Tuning is withAutoTune;
--                     Starts, Ranges, Repeats and CatchUp hold the proofs on ticks.
--   Breaker           internal/circuitbreaker/breaker.go, with the proofs in Edges and Trips
--   Health            internal/pipeline/health.go, with the proofs in Window, Percentile and Status
--   Finalizer         internal/pipeline/finalizer/finalizer.go, with the proofs in Promotions
--   Cache             internal/cache/lru.go, with the proofs in Laws and Others; Sharded is
--                     internal/cache/sharded_lru.go
--   Identity          internal/pipeline/identity/identity.go, with the proofs in Spellings and Negation;
--                     Prelude/Decimal reads and prints the integers of math/big
--   Store             the rows and statements of internal/store/postgres that the ingester sends. Sums
--                     is the abstract view, a sum for each key; Adjust and Bulk show what
--                     BulkAdjustBalanceTx adds to it.
--   Ingester          internal/pipeline/ingester/ingester.go: Cursors, Retries, Delays and Amounts are
--                     decisions; Collect, Build and Write are the phases of processBatch, whose
--                     statements Write returns as a list; Items, Reversal and Reorg are the rollbacks and
--                     the promotion, on Store's tables, where a commit that fails may have taken
--                     place; Reorg hands over to Replay where there is a replay service. Hashes and
--                     amounts are those of Identity. Forks, Sums, Inputs, Balanced, Rollbacks,
--                     Promoted, Promotions, Trimmed, Conserved and Commits hold the proofs.
--   Interleaver       internal/pipeline/ingester/interleaver.go, as steps of a system of goroutines, with
--                     the proofs in Order and Exclusion
--   ReorgDetector     internal/pipeline/reorgdetector/detector.go: a check of the unfinalized blocks that
--                     Ingester's tables hold, with the proofs in Chain and Evidence
--   Replay            internal/pipeline/replay/service.go: the purge from a block on, on Ingester's
--                     tables, with proofs in Purge, Inputs and Balanced
--   Retry             internal/pipeline/retry/retry.go: which errors are transient, with a proof in Codes
--   Activity          internal/domain/model/activity_classifier.go
--   Tests             runs on concrete inputs, and each theorem at an input that meets its hypotheses
--
-- A controller or a machine is a record, and a method takes the record to the changed record and its
-- result. A string that the source compares with constants is a data type where the program makes it
-- (a decision, a status) and a text where it comes from outside (a chain, a token type). A
-- local variable of a long function becomes the argument of the function that models the lines after
-- it. Parsers that return a value and a flag return an Option. Maps with a fixed set of keys are
-- functions; an array of fixed length is a list.
--
-- Loops run over lists or over the rounds left by structural recursion. Only the printing of a number
-- takes fuel, one more than the number, which has no more digits than that. Signed 64-bit numbers wrap
-- as Go's do: each theorem that needs a sum to stay in range says so in its hypotheses.
--
-- Not modelled: RPC clients, HTTP, metrics, logs and configuration reading, which move data and decide
-- nothing here; goroutines and locks, since the methods modelled hold their mutex for their whole
-- body, are steps of a system or belong to one goroutine. Of the SQL only the statements that the
-- ingester's rollbacks and promotions send are modelled; which joined row an UPDATE takes is a
-- parameter. The upsert of balance events is sent but not modelled. The fetcher, normalizer and
-- reconciliation stages are not modelled.
pub mod Prelude
pub mod Autotune
pub mod Activity
pub mod Breaker
pub mod Cache
pub mod Coordinator
pub mod Finalizer
pub mod Health
pub mod Identity
pub mod Ingester
pub mod Interleaver
pub mod ReorgDetector
pub mod Replay
pub mod Retry
pub mod Store
pub mod Tests
