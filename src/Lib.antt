-- ===== src/Lib.antt =====
-- Distributed job queue: the store of src/core/store.mjs, over a SQLite database, with the modules it calls
-- and the workers, the scheduler and the HTTP server that call it.
--
-- The program. `JobQueueStore` keeps queues, jobs, workers, rate limits, schedules and events in tables. A
-- client enqueues jobs; a worker claims due jobs under a lease, renews it, and completes or fails them; a
-- claim first recovers expired leases and timed-out jobs and releases jobs whose dependencies are completed.
-- A job that is cancelled or becomes a dead letter cancels the jobs that depend on it. A scheduler dispatches
-- due schedules, each an enqueue. The server maps requests to these calls.
--
-- The model. A method is a function from a store to a result and a store (Exec); what was written before a
-- throw stays. A table is the list of its rows in the order of insertion, a statement is a function on it.
--   Model       the rows (`mapQueue`, `mapJob`, …), the status sets, the store
--   Exec        methods, errors, `nowIso`, `createId` and `queueId` (src/core/ids.mjs), `addEvent`
--   Text, Json, Input   `normalizeName`, `normalizeIdList`, `clampInt`, `normalizeRetryPolicy`,
--               `computeRetryDelayMs` and the other helpers at the end of store.mjs
--   Schemas     src/core/schemas.mjs      Guidance   src/core/failureGuidance.mjs
--   Queues, Workers, RateLimits           the operations on these tables
--   Jobs        `Change` has one constructor for each UPDATE of a job by its id, `where_row` its WHERE
--               clause, `set_row` its SET clause; the child modules have the methods: Enqueue, Cancel,
--               Finish (`renewLease`, `completeJob`, `releaseReadyDependencies`, `failJob`,
--               `releaseWorkerLeases`), Requeue, Recover, Claim, Workflow
--   Dates       a time zone, as a parameter, and UTC
--   Cron        src/core/cron.mjs: `parseField`; Cron/Search `parseCronExpression`, `matchesCron`,
--               `nextCronRun`
--   Schedules   `createSchedule`, `toggleSchedule`, `runScheduleNow`; Schedules/Dispatch
--               `dispatchDueSchedules`
--   Queries     `listJobs`, `listEvents`, `getMetrics`, `getThroughputSeries`, `getWorkerPools`, `getState`
--   Snapshots   `exportSnapshot`, `importSnapshot` (`import_snapshot` its transaction, with UNIQUE and
--               FOREIGN KEY constraints, `import_and_read` with the state that it returns)
--   Maintenance `pruneEvents`, `archiveTerminalJobs`     Autoscaler  src/core/autoscaler.mjs
--   Demo        `seedDefaults`, `seedDemoScenario`, `vacuumDatabase`; Demo/Failures
--               `injectFailureScenario`
--   Runtime     src/worker/workerRuntime.mjs and schedulerRuntime.mjs; Runtime/Handlers
--               src/worker/handlers.mjs; Runtime/Process a worker's steps between the calls of others
--   Server      src/server/server.mjs: Server/Routes the tests of `createApp` in their order, Server/Serve
--               what each route does and how an error is answered
--   Steps       the writes of the store as a step relation, and each method as a sequence of steps
--   Invariant   the invariant of a job row         Cascade    the cancellation cascade
--   Outcomes    what single calls return and leave
--   Api         sequences of the calls that write a table, but `importSnapshot` (an import takes the rows of
--               its snapshot as they are) and `archiveTerminalJobs` (which deletes rows): Server has both
--   Tests       a sample store, and the theorems applied to it
--
-- Choices. The calls come one after another, as on the synchronous database; between two processes,
-- `failJob` and `recoverStaleLeases` (SELECT, then UPDATE by the id alone) are not atomic, and this is not
-- modelled. The timers and promises of a worker are steps that may come at any moment; `active` is the map
-- of the source, and `tasks` are the tasks that run, also those whose key another task has taken. Times are
-- milliseconds since 1970 in ℕ: ISO texts of years up to 9999 compare as these numbers, a time before 1970
-- reads as 0, and the dates of a request and of a snapshot are valid. The run time of a requeue, which the
-- source stores as the text that is given, is a number too, as if that text were in the form of `nowIso`.
-- `World` supplies the readings of the clock, the time zone, the random ids, `Math.random`, `JSON.parse`
-- and `JSON.stringify`. Lower case is that of ASCII. JSON numbers are integers or infinite. `julianday`
-- arithmetic is exact, and an average is kept as a sum and a count. The metadata of events, which nothing
-- reads back, is left out. Two spellings of a request field (`dependsOn`, `depends_on`) are one. The body
-- of a request is read into the fields of its call, and the numbers of a query are given as numbers. Rows
-- that an ORDER BY does not tell apart keep the order of the table. Files, percent decoding and
-- `localeCompare` are parameters of the server.
--
-- Fuel. `cancel_dependent_jobs` has fuel: each level of its recursion has cancelled one more job, so the
-- number of jobs plus one is enough. `search_run` makes the 527040 checks of the source, the minutes of 366
-- days. `add_from` has one round for each number from the start to the end of a segment, and each round goes
-- at least one further. The decimal print `show n` has n + 1 rounds, and n has no more digits.
--
-- Not modelled: the creation of the tables, the Prometheus print of the metrics, the event stream of the
-- server, the OpenAPI document, the command line tools and the dashboard, which are I/O around these calls.
pub mod Prelude
pub mod Text
pub mod Json
pub mod Schemas
pub mod Input
pub mod Guidance
pub mod Model
pub mod Exec
pub mod Queues
pub mod Workers
pub mod Jobs
pub mod RateLimits
pub mod Steps
pub mod Invariant
pub mod Api
pub mod Cascade
pub mod Outcomes
pub mod Tests
pub mod Maintenance
pub mod Autoscaler
pub mod Cron
pub mod Dates
pub mod Schedules
pub mod Runtime
pub mod Queries
pub mod Snapshots
pub mod Demo
pub mod Server
