-- ===== src/Lib.antt =====
-- A verification library for queue-worker-kit, a TypeScript kit of background jobs on BullMQ and
-- Redis with an HTTP API.
--
-- The program. Producers call `enqueue`, which validates a payload, wraps it in an envelope with
-- a correlation id and adds it to one of a fixed set of queues. A worker process runs the jobs of
-- its queues: the processor looks the job up in the registry of jobs, validates the stored
-- envelope again, races the job's function against a deadline and an abort, counts what happened
-- and rethrows errors, so that BullMQ decides on retries. When BullMQ gives a job up for good,
-- the worker's listener copies it to a bounded dead-letter queue. A controller shuts the process
-- down step by step under a deadline. The HTTP API offers job creation and status, and maps every
-- error to a safe answer.
--
-- The two processes load an environment that zod's schema checks, open Redis and the queues, and
-- install the shutdown as the handler of their signals; the worker also registers the recurring
-- jobs.
--
-- The files.
--   Prelude: Boolean tests, lists, texts (lists of UTF-16 code units) and decimal numbers.
--   Values, Json, Dictionary: JavaScript values, property reads that may throw, completions of
--     calls, the program's error classes (errors/errors.ts, api/errors.ts, config/env.ts), JSON,
--     maps.
--   Errors: `classifyError` of errors/errors.ts.
--   Utils: serializeError and its bounds (utils/serialize-error.ts), `sleep` (utils/sleep.ts).
--   Config: the constants of config/defaults.ts; Schema, the interface of zod's builders; Env,
--     the environment of config/env.ts (Variables: the schemas of single variables; Integers,
--     Numerals, Dashboard and Laws: what a loaded environment satisfies).
--   Observability: counters and log records as effects, the names and labels of the metrics and
--     the gauge of the queue depths (observability/metrics.ts), correlation ids
--     (observability/context.ts) and the options of the logger (observability/logger.ts).
--   Jobs: definitions, envelopes and the registry (jobs/types.ts, jobs/definitions/*.job.ts,
--     jobs/registry.ts), and the processors of the three jobs (jobs/definitions/*.job.ts). Names
--     types payloads and results by the name of their job; Schemas writes zod's schemas as data;
--     Work fills the registry with the program's processors, and follows a typed payload to its
--     processor's result.
--   Queue: the queue registry (queue/registry.ts), the options of queues and workers
--     (queue/defaults.ts, queue/create-queue.ts), `enqueue` (queue/enqueue.ts), the recurring
--     jobs (queue/scheduler.ts), the listeners of queue events (queue/events.ts) and the Redis
--     connection (queue/connection.ts).
--   Worker: one attempt at a job (worker/processor.ts), the dead-letter writer with its drain
--     (worker/dead-letter.ts), the listeners (worker/create-worker.ts; Create/Failure follows a
--     failed attempt to its record), a job's life from its first attempt to its result or its
--     dead-letter record (Life), and the shutdown controller with its signal handlers
--     (worker/graceful-shutdown.ts).
--   Api: error responses and route validation (api/errors.ts), the job endpoints
--     (api/routes/jobs.routes.ts; Jobs/Schemas: what a body that passed its schema is worth), the
--     health endpoints (api/routes/health.routes.ts, worker/metrics-server.ts), the dashboard's
--     credentials (api/bull-board.ts) and the correlation id of a request (api/app.ts). Setup is
--     how the Fastify servers are put together, as steps in their order (api/app.ts,
--     api/bull-board.ts, worker/metrics-server.ts).
--   Processes: the starts of the two processes and the steps of their shutdowns
--     (worker/server.ts, api/server.ts).
--   Dev: the runner of the two processes during development (Forward: the output of a child, line
--     by line; Supervisor: starting and stopping the children), scripts/dev.mjs.
--   Tests: concrete instances of the parameters, and the theorems applied to them.
-- All these paths but scripts/dev.mjs are in the repository's src directory.
--
-- The model. A call that may throw returns a `Completion`; effects on counters, the log and Redis
-- are lists in the order in which they happen. Concurrency is made explicit: an attempt, a sleep
-- and a shutdown are machines that react to a sequence of events (a promise settles, a timer
-- fires, a signal aborts), and the theorems hold for every sequence. Loops are structural
-- recursion, so there is no fuel, but for the chain of causes of an error, which the code itself
-- bounds by ERROR_CAUSE_MAX_DEPTH.
--
-- Parameters. What BullMQ makes of a job when an attempt has failed, by its documented rule on
-- attempts and on UnrecoverableError (Worker.Life.BrokerLaws); zod's parsers, with the laws that the program relies on (Jobs.Types.ZodLaws), and its schema
-- builders with theirs (Config.Schema.BuildersLaws), its objects with theirs
-- (Jobs.Schemas.ObjectParserLaws); BullMQ's Queue.add, its operations on the dead-letter queue
-- (Worker.DeadLetter.Laws.IsWorking) and its job schedulers (Queue.Scheduler.SchedulersLaws),
-- with their documented behaviour; Queue.getJob, Job.getState and Job.updateProgress;
-- prom-client's gauge (Observability.QueueDepth.GaugeLaws); Fastify's registrations of plugins
-- and its `listen`, as the completions they end with; Node's SHA-256; the host's clock, URLs,
-- objects, their getters and JSON.stringify.
--
-- Not modelled: how Fastify, pino, prom-client and Bull Board do their work, and Node's child
-- processes and streams beyond the events that scripts/dev.mjs handles; index.ts, which only
-- re-exports; the settings of eslint and prettier. The contents of log records beyond their level
-- and message are left out, and so are the log records of the three processors, and durations.
pub mod Prelude
pub mod Values
pub mod Json
pub mod Dictionary
pub mod Errors
pub mod Utils
pub mod Config
pub mod Observability
pub mod Jobs
pub mod Queue
pub mod Worker
pub mod Api
pub mod Processes
pub mod Dev
pub mod Tests
