-- ===== src/Lib.antt =====
-- Stagehand records the calls that an agent makes to services, replays them, and simulates
-- services in sessions with a clock of their own. This library models the core of its runtime:
-- sessions with their snapshots and forks, the queue of scheduled events, the tables of the SQLite
-- store that both keep their state in, the injection of errors into calls, the record of a run
-- with its validation and its replay, the matcher that answers a request from recorded calls, the
-- contracts that a run's actions are held against, the comparison of two runs, and the assertions
-- and release gates that a run is held to.
--
-- Files and the code they model (paths from the repository's root):
-- - Store/Records.antt: internal/store/store.go: SessionRecord, SessionSnapshot, SessionClock and
--   ScheduledEvent, and their Validate methods (`…_problems`, the messages in the order of the
--   code).
-- - Store/Tables.antt: internal/store/sqlite/migrations: the rows of the tables, in the record
--   `Db`, and the tests of the WHERE clauses.
-- - Store/Sessions.antt, Snapshots.antt, Clocks.antt, Events.antt, Deletion.antt:
--   internal/store/sqlite/store.go: one function per operation (CreateSession is
--   `create_session`). A statement is an operation on the lists of rows, with its keys, references
--   and order; an operation that fails leaves the tables as they were, as its transaction is
--   rolled back, so it returns an error alone.
-- - Store/Marking.antt, Scanning.antt, Deletion/, Snapshots/: lemmas on these operations.
-- - Effect.antt: a method of a manager: it reads and writes the tables in steps, and what it wrote
--   before an error stays.
-- - Runtime/Queue.antt: internal/runtime/queue/manager.go: Schedule, Now (`now_of`), AdvanceTime,
--   PullDue. The children of the module prove what they do.
-- - Runtime/Session.antt: internal/runtime/session/manager.go: Create, Fork, Snapshot, Restore,
--   CurrentSnapshot, Destroy. The children of the module prove what they do.
-- - Runtime/Injection.antt, Runtime/Injection/Library.antt: internal/runtime/injection/engine.go
--   and library.go: NewEngine (`new_engine`), Evaluate, and the named errors. An engine is a value
--   that Evaluate returns changed, since its mutex makes each call one step.
-- - Recorder.antt, Recorder/Validation.antt: internal/recorder/schema.go: the data of a run and
--   the methods that validate it. Recorder/WellFormed.antt proves what a run without a problem is.
-- - Runtime/Replay.antt: internal/runtime/replay/exact.go: SummarizeExactSource.
-- - Runtime/Fallback.antt, Runtime/Fallback/Requests.antt, Similarity.antt:
--   internal/runtime/fallback/matcher.go: NewMatcher with its options, and Match (`find_match`)
--   with the candidates, the key of a request and the score of a candidate. Tiers, Recorded,
--   Nearest and Symmetry beside them are proofs.
-- - Contracts.antt, Contracts/Schema.antt: internal/analysis/contracts/schema.go: a contract
--   (`File` in the code) and its Validate.
-- - Contracts/Classify.antt, Contracts/Generate.antt: internal/analysis/contracts/generate.go: the
--   side effect of an interaction, and GenerateFromRun.
-- - Contracts/Enforce.antt: internal/analysis/contracts/enforce.go: Evaluate.
-- - Contracts/Compare.antt, Contracts/Compare/Prompts.antt: internal/analysis/contracts/diff.go:
--   DiffRuns.
-- - Contracts/Risk.antt: internal/analysis/contracts/risk.go: ScoreRisk.
-- - Diff.antt, Diff/Ignoring.antt, Diff/Paths.antt: internal/analysis/diff/diff.go: Compare
--   (`compare_runs`), the fields that it ignores, and the paths at which two values differ.
--   Diff/Distinct.antt and Diff/Same.antt are proofs.
-- - Assertions.antt, Assertions/Matching.antt: internal/analysis/assertions/evaluate.go: which
--   interactions an assertion is about, and the assertions that count, order, forbid an operation
--   or prohibit a tier. Assertions/Verdicts.antt proves when they pass.
-- - Gates.antt: internal/analysis/gates/evaluate.go: a gate as an assertion, and Evaluate
--   (`evaluate_gates`) with the errors of both Validates. Gates/Schema.antt has the data and
--   Validate of schema.go, Assertions/Validation.antt what the assertions package asks of a match.
--   Gates/Clauses.antt says what each clause of a gate asks of a run, and Gates/Holding.antt
--   proves that Evaluate checks it. Gates/Translating.antt proves that valid gates translate to
--   valid assertions.
-- - Standard.antt: the parts of Go's standard library that these packages call, as parameters.
-- - Base, Result.antt, Json.antt: shared helpers: lists by Boolean tests, trimmed texts, Go's pair
--   of a value and an error, and `encoding/json` as a parameter (`Codec`) with its documented
--   laws.
-- - Examples: tests, and the theorems at concrete inputs.
--
-- Bounds. A time is a natural number, the nanoseconds after Go's zero time; zero is the zero time.
-- The model holds for the years 1 to 9999, where the fixed-width text of a time column orders as
-- the times do. Loops are structural recursion on a list or a JSON value, but for that of
-- `sqlVerb`, which has as fuel one more than the characters of the query: each round drops a
-- comment, which is not empty.
--
-- Parameters. The manager's clock and its source of identifiers are arguments of each method
-- (`now`, and an identifier or none where the source fails). The JSON codec is a parameter; the
-- number literals of a JSON value are kept as text. The numbers of type float64, `strings.ToLower`
-- and the random source of an engine are the record `Machine`. The record `Standard` holds what
-- the analysis calls of strings, fmt, strconv, crypto/sha256 and encoding/json, with float64 as a
-- type of its own; `Laws` are the documented laws that a theorem uses. `Net` holds net/url and the
-- matcher's regular expressions. The empty text stands for NULL in a column of text, since
-- `nullIfEmpty` makes a blank text NULL.
--
-- Not modelled. Failures of the database engine itself, and the concurrency of several
-- connections: each transaction is one step. The columns of a run are the text that is stored,
-- which getRunRecord decodes; the times of the other tables are stored as times. The tables of
-- interactions, events, assertions and baselines, which the operations here do not read.
-- AppendProvenance and NewEngineFromConfig of the engine, and its deep copies, which are the value
-- itself here. A Go map is a list of entries: where the code sorts the keys the model does, and
-- where it ranges over a map, the order of the fields of a JSON value stands for the order of the
-- range. Where the search for the text of a query ranges over a map, `Standard` gives that order,
-- and DiffRuns takes one for each interaction of each call. Reading files, JSON or YAML into a run
-- or a contract, and writing them as text, are input and output. An error of the matcher is a text
-- without its details. Compare takes the JSON value of an interaction as a parameter. Of the
-- assertions, those on payload fields and on links between services. The others take the function
-- that reads the host of a URL as an argument, which is `url_host` in the code. Validate of the
-- assertions that no gate translates to. The other packages (conformance, scrub, recording,
-- services, config, cmd) are not part of this library.
pub mod Base
pub mod Json
pub mod Result
pub mod Store
pub mod Effect
pub mod Runtime
pub mod Standard
pub mod Recorder
pub mod Contracts
pub mod Diff
pub mod Assertions
pub mod Gates
mod Examples
