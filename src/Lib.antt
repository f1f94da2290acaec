-- ===== src/Lib.antt =====
-- databricks-emulator: a local emulator of a Databricks workspace.
--
-- The program serves the workspace's REST API (internal/server) over stores (internal/store) that
-- are kept in memory and partly on disk, and sends the work that needs an engine to an attached
-- Spark agent (internal/spark).
--
-- Base holds the shared names, Dict Go's maps, Text what is used of Go's text functions. Store
-- models internal/store and Server internal/server:
--   Store.Jobs: internal/store/jobs.go, the job and run store. Store.Jobs.Cancel and .Fresh hold its
--     theorems.
--   Server.Jobs: internal/server/jobs.go. Conditions is evalCondition; Dependencies is depsSatisfied
--     and shouldRun; Waves is the loop of executeRun; World and Tasks are runTask, runJobTask,
--     runForEachTask and what they call; Execute is executeRun. The modules below each of them hold
--     its theorems.
--   Server.Queries: internal/server/queries.go, the handlers of saved queries. Race has two of them
--     that run at the same time.
--   Store.Mlflow: internal/store/mlflow.go. Experiments, Runs and Registry are its three parts, Reopen
--     is openMLflow after persistLocked, Latest is LatestMetrics, Filter the filters of the searches,
--     and the modules below each part hold its theorems.
--   Store.Policies: internal/store/policies.go. Rules is the validation and the evaluation of a
--     policy, which Rules.Meaning describes independently.
--   Store.Path: internal/store/path.go, with path.Clean written out for rooted paths; Path.Spec says
--     what CleanRel answers.
--   Sqlshim: internal/sqlshim/shim.go. Scan is its reading of literals and identifiers; Managed and
--     Comments hold theorems.
--   Store.Commands, .Clusters, .Sql, .Secrets, .Groups, .Identity: the files of internal/store with
--     these names. Sql.History is the query history, Sql.Names and Sql.Listing the display names and
--     the listing of saved queries. Store.Numbered has what the stores share that number their
--     objects by a counter, and Store.Named what those share whose live objects have different names.
--   Clock: internal/clock/clock.go.
-- Tests runs the model at concrete inputs.
--
-- State is passed explicitly; an operation returns the new state and its result. A Go map is a Dict
-- with distinct keys, whose order no theorem depends on. A mutex makes an operation of a store atomic.
-- The handlers of saved queries take it several times: what other requests do between the choice of
-- a name and its write is an argument, `others`, and at every other point a handler is modelled as
-- if no other request ran.
--
-- Bounds: an id is the 64-bit pattern of an int64, and theorems about new ids ask for room in the
-- counter. The loop of executeRun has fuel for one round more than it has tasks, which is enough
-- because each wave that is not empty removes a task. Nested runs have levels, and six are enough
-- because maxRunJobDepth is 5. ResolveDisplayName tries the 999 suffixes of the source, and a client
-- that follows the pages of the history has one request more than there are entries. The loop that
-- drops comments has a round for each character and one more, since a round that changes the statement
-- makes it shorter.
--
-- Files: the stores of secrets, groups, MLflow and policies hold the contents of the file they save to, and an
-- operation that saves takes the outcome of the write as an input. Reading it back is the restart.
--
-- Not modelled: HTTP, JSON, the file system, TLS, the engine and other services. What the modelled
-- code needs of them is a parameter: Server.Jobs.World.Services for runTask, and
-- Server.Jobs.Conditions.Floats for float64, Sqlshim.Patterns for the regular expressions,
-- Store.Policies.Rules.Json for decoded JSON, and arguments for ToLower, EqualFold, the hash of a
-- secret and its hexadecimal digits. The tasks of a wave, and the inputs of a
-- for_each_task, run one after another in the model.
pub mod Base
pub mod Dict
pub mod Clock
pub mod Sqlshim
pub mod Store
pub mod Text
pub mod Server
mod Tests
