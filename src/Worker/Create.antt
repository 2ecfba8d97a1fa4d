-- ===== src/Worker/Create.antt =====
-- The listeners of `createWorker` in src/worker/create-worker.ts. What BullMQ does between the
-- events is not code of this repository.
pub mod Failure
pub mod Laws
use queue_worker_kit.Prelude.{
  ℕ, Text, codes, text_eq, is_some, ◌++◌, List, [], ◌∷◌, Bool, true, false, Option, none, some,
  if◌then◌else◌,
}
use queue_worker_kit.Values.{Value, Completion, normal, throw, Host}
use queue_worker_kit.Json.{Json, property}
use queue_worker_kit.Jobs.Types.{Parsed, success, failure, Zod, JobMeta}
use queue_worker_kit.Observability.Effects.{Effect, info, warn, inc, log, jobs_stalled}
use queue_worker_kit.Config.Env.{Env}
use queue_worker_kit.Queue.Options.{WorkerOptions, build_worker_options}
use queue_worker_kit.Worker.Processor.{Job}
use queue_worker_kit.Worker.DeadLetter.{DeadLetterInput, DeadLetterQueue, record_failure}

abbrev correlation_id_in : Parsed JobMeta → Text
correlation_id_in (success m) = m.correlation_id
correlation_id_in (failure issues) = codes "unknown"

-- `correlationIdOf`: the metadata of the stored data, if they parse.
unfoldable pub correlation_id_of : Zod → Option Job → Text
correlation_id_of zod none = codes "unknown"
correlation_id_of zod (some job) =
    correlation_id_in (zod.parse_meta (property (codes "meta") job.stored))

unfoldable pub is_terminal_failure : Job → Bool
is_terminal_failure job = is_some job.finished_on

unfoldable pub dead_letter_input : Zod → Text → Job → Value → DeadLetterInput
dead_letter_input zod queue_name job error = record {
  source_queue = queue_name;
  job = job;
  thrown = error;
  correlation_id = correlation_id_of zod (some job);
  attempts_made = job.attempts_made;
}

-- What BullMQ's constructor is given, the processor and the connection left out.
pub record WorkerSettings : Type 0 where
  pub queue_name : Text
  pub options : WorkerOptions
  pub name : Text

unfoldable pub worker_settings : Env → Text → WorkerSettings
worker_settings env queue_name = record {
  queue_name = queue_name;
  options = build_worker_options env;
  name = env.queue_prefix ++ (b'-' ∷ queue_name);
}

pub data WorkerEvent : Type 0 where
  ready closing closed : WorkerEvent
  worker_error : Value → WorkerEvent
  stalled : Text → WorkerEvent
  failed : Option Job → Value → WorkerEvent

-- The writer's promise is not awaited by the listener; here its effects follow at once.
module _ {S : Type 0} (zod : Zod) (host : Host) (queue : DeadLetterQueue S) (max_entries : ℕ)
    (queue_name : Text) where
  abbrev pub on_job_failed : ℕ → Option Job → Value → S → S × List Effect
  on_job_failed now none error s = (s, log warn (codes "job failed without a job reference") ∷ [])
  on_job_failed now (some job) error s =
      let (r, s', es) =
        record_failure queue host max_entries now (dead_letter_input zod queue_name job error) s in
      if is_terminal_failure job then (s', es) else (s, [])

  unfoldable pub on_event : ℕ → WorkerEvent → S → S × List Effect
  on_event now ready s = (s, log info (codes "worker ready") ∷ [])
  on_event now (worker_error error) s = (s, log warn (codes "worker error") ∷ [])
  on_event now (stalled id) s = (
    s,
    inc jobs_stalled (record { queue = queue_name; job_name = none })
        ∷ log warn (codes "job stalled and was returned to wait")
        ∷ [],
  )
  on_event now (failed job error) s = on_job_failed now job error s
  on_event now closing s = (s, log info (codes "worker closing, no new jobs will be fetched") ∷ [])
  on_event now closed s = (s, log info (codes "worker closed") ∷ [])
