-- ===== src/Queue/Scheduler/Run.antt =====
-- From a worker's boot to the processor: what a schedule produces is a job that the worker runs.
use queue_worker_kit.Prelude.{
  ℕ, ◌-◌, false, Text, text_eq, codes, true, List, none, some, some_unique, ◌≡◌, refl, arith,
}
use queue_worker_kit.Config.Defaults.{
  maintenance, maintenance_scheduler_id, maintenance_cleanup_lookback_ms,
}
use queue_worker_kit.Config.Env.{Env}
use queue_worker_kit.Values.{normal}
use queue_worker_kit.Jobs.Types.{
  Zod, ZodLaws, success, JobMeta, JobEnvelope, envelope_json, IsValidMeta,
}
use queue_worker_kit.Jobs.Schemas.{
  Formats, ObjectParser, ObjectParserLaws, all_fit, cleanup_payload_schema, with_payload_schemas,
}
use queue_worker_kit.Json.{str, bool, obj, Fields, field, end, get_field}
use queue_worker_kit.Jobs.Definitions.{cleanup_job}
use queue_worker_kit.Jobs.Registry.{
  Processors, register, parsed_or_throw, create_job_registry, registry_get, RegisteredJob,
}
use queue_worker_kit.Observability.Effects.{Effect}
use queue_worker_kit.Queue.Registry.{Queue, QueueRegistry, get}
use queue_worker_kit.Queue.Enqueue.RoundTrip.{entries}
use queue_worker_kit.Jobs.Registry.Laws.{cleanup_name}
use queue_worker_kit.Queue.Scheduler.{
  Moment, ToIso, Entry, entry_of, scheduled_envelope, cleanup_window, Schedulers, SchedulersLaws,
  upsert_schedules, build_default_schedules,
}
use queue_worker_kit.Queue.Scheduler.Laws.{upsert_schedules-Holds}

module _ {Work : Type 0} (formats : Formats) (z : ObjectParser)
    (parses : ObjectParserLaws formats z) (zod : Zod) (laws : ZodLaws zod)
    (processors : Processors Work) (to_iso : ToIso)
    (dates : (ms : ℕ) → zod.is_datetime (to_iso ms) ≡ true)
    (dates' : (ms : ℕ) → formats.is_datetime (to_iso ms) ≡ true) where
  -- zod at the schemas of the program.
  abbrev full : Zod
  full = with_payload_schemas z zod

  window_accepted :
      (ms : ℕ)
      → full.cleanup_payload (cleanup_window to_iso ms) ≡ success (cleanup_window to_iso ms)
  unfolding with_payload_schemas cleanup_window text_eq get_field
  window_accepted ms =
      let fs : Fields =
        field (codes "before") (str (to_iso (ms - maintenance_cleanup_lookback_ms)))
          (field (codes "dryRun") (bool false) end) in
      let fit : all_fit formats cleanup_payload_schema.shape fs ≡ true =
        rw (dates' (ms - maintenance_cleanup_lookback_ms)) refl in
      rw ((parses.parse_iff cleanup_payload_schema (obj fs) fs).1 (fs, refl, fit, (λ is. cc), refl))
        refl

  -- The entry is found under its name, and its data reaches the processor.
  abbrev pub Runs : Entry → Moment → Type 0
  Runs e moment =
      (job : RegisteredJob Work) × (registry_get (create_job_registry full processors) e.name
        ≡ some job)
      × (job.definition.queue ≡ maintenance)
      × ((attempt : JobMeta → ℕ)
          → (meta : JobMeta) × (job.invoke e.stored attempt
              ≡ normal (record {
                meta = meta;
                work = processors.cleanup (record {
                  payload = cleanup_window to_iso moment.built;
                  correlation_id = codes "scheduler:maintenance-cleanup";
                  attempt = attempt meta;
                });
              })))

  envelope : Moment → JobEnvelope
  envelope moment = record {
    payload = cleanup_window to_iso moment.built;
    meta = record {
      correlation_id = codes "scheduler:maintenance-cleanup";
      enqueued_at = to_iso moment.enqueued;
      idempotency_key = none;
    };
  }

  envelope-IsValidMeta : (moment : Moment) → IsValidMeta zod (envelope moment).meta
  unfolding envelope
  envelope-IsValidMeta moment = record {
    correlation_id = (omega arith, omega arith);
    enqueued_at = dates moment.enqueued;
    idempotency_key = tt;
  }

  entry-Runs :
      (e : Entry) (moment : Moment)
      → e.name ≡ cleanup_name
      → e.stored ≡ envelope_json (envelope moment)
      → Runs e moment
  unfolding register parsed_or_throw cleanup_job envelope with_payload_schemas
  entry-Runs e moment named holds = (
    register full (cleanup_job full) processors.cleanup,
    rw named (entries full processors).2,
    refl,
    λ attempt. (
      (envelope moment).meta,
      rw
          (
            holds,
            laws.envelope_accepts (envelope moment) (envelope-IsValidMeta moment),
            window_accepted moment.built,
          )
          refl,
    ),
  )

  module _ {S : Type 0} (schedulers : Schedulers S) (store : SchedulersLaws schedulers)
      (queues : QueueRegistry)
      (answers : (q : Queue) (id : Text) (e : Entry) (s : S)
        → (s' : S) × (schedulers.upsert q id e s ≡ normal s')) where
    -- Where the maintenance queue is registered, Redis answers, and zod takes what the host writes
    -- of a date for a date, a worker's boot leaves under the id of the clean-up schedule an entry
    -- with the environment's pattern. The registry has a processor for the name of its jobs, on the
    -- queue that holds the schedule, and their data passes every check of the worker, that of the
    -- clean-up's own schema included, and reaches the clean-up processor with the window that was
    -- computed at the boot, whatever the schedulers were before.
    pub upsert_schedules-Runs :
        (env : Env) (q : Queue) (times : ℕ → Moment) (s : S)
        → get queues maintenance ≡ some q
        → (s' : S) × (es : List Effect) × (e : Entry) × (upsert_schedules schedulers to_iso queues
              (build_default_schedules full env)
              times
              s
            ≡ (normal tt, s', es))
          × (schedulers.entry s' q.name maintenance_scheduler_id ≡ some e)
          × (e.pattern ≡ env.maintenance_cleanup_cron)
          × Runs e (times 0)
    unfolding build_default_schedules entry_of scheduled_envelope cleanup_job envelope
    upsert_schedules-Runs env q times s found =
        let specs = build_default_schedules full env in
        let (s', es, run, ((q', found', (e, held, built)), _), _) =
          upsert_schedules-Holds schedulers store to_iso queues answers specs times s (tt, tt)
            ((q, found), tt) in
        let same : q' ≡ q = some_unique found' found in
        (
          s',
          es,
          e,
          run,
          rw same at held,
          built.pattern,
          entry-Runs e (times 0) built.name built.stored,
        )
