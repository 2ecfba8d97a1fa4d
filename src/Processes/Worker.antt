-- ===== src/Processes/Worker.antt =====
-- src/worker/server.ts: the start of a worker process.
pub mod Closing
pub mod Failures
use queue_worker_kit.Prelude.{
  ℕ, Text, codes, ◌++◌, List, [], ◌∷◌, map, Bool, true, false, Option, none, some, if◌then◌else◌,
}
use queue_worker_kit.Config.Defaults.{all_queue_names, dead_letter}
use queue_worker_kit.Config.Env.{Env}
use queue_worker_kit.Values.{Number, Completion, normal, throw, Host}
use queue_worker_kit.Jobs.Types.{Zod}
use queue_worker_kit.Observability.Effects.{
  Effect, log, info, warn, after, ◌>>=◌, ◌>>◌, emit, lift, pure,
}
use queue_worker_kit.Queue.Registry.{Queue, create_queue_registry, get_or_throw}
use queue_worker_kit.Queue.Scheduler.{
  Moment, ToIso, Schedulers, upsert_schedules, build_default_schedules,
}
use queue_worker_kit.Api.Setup.{start_metrics_server}
use queue_worker_kit.Processes.{
  configures, Resource, redis, queues, queue_events, workers, metrics_server, StepAction,
  mark_draining, drain_dead_letters, close, ShutdownStep, Startup, did, opened,
  install_signal_handlers, Start, caught,
}

abbrev pub when : {A : Type 0} → Bool → List A → List A
when on xs = if on then xs else []

abbrev pub closing : Text → Resource → ShutdownStep
closing name resource = record { name = name; action = close resource }

-- The steps, with those of the two listeners that the environment can turn off.
unfoldable pub worker_steps : Bool → Bool → List ShutdownStep
worker_steps metrics events =
    record { name = codes "mark-draining"; action = mark_draining }
      ∷ closing (codes "workers") workers
      ∷ record { name = codes "dead-letter-drain"; action = drain_dead_letters }
      ∷ when metrics (closing (codes "metrics-server") metrics_server ∷ [])
    ++ when events (closing (codes "queue-events") queue_events ∷ [])
    ++ closing (codes "queues") queues ∷ closing (codes "redis") redis ∷ []

-- What the world answers: whether Redis is ready within its time, BullMQ's queues, the schedulers
-- that Redis holds and the clock, and whether the metrics server can listen.
pub record WorkerWorld (S : Type 0) : Type 0 where
  pub zod : Zod
  pub redis_ready : Bool
  pub create_queue : Text → Queue
  pub held : S
  pub to_iso : ToIso
  pub times : ℕ → Moment
  pub listen : Completion (List Number)

abbrev pub only_if : Bool → Start (Unit {0}) → Start (Unit {0})
only_if on m = if on then m else pure tt

module _ {S : Type 0} (schedulers : Schedulers S) where
  pub connect : WorkerWorld S → Start (Unit {0})
  connect world = do
    emit (did (log info (codes "worker starting")))
    emit (opened redis)
    if world.redis_ready
        then pure tt
        else emit
            (did (log warn (codes "redis not ready yet, continuing and relying on reconnect")))
    emit (opened queues)

  -- The queue for the dead-letter writer, and the schedules.
  pub scheduled : WorkerWorld S → Env → Start (Unit {0})
  scheduled world env =
      let registry = create_queue_registry world.create_queue all_queue_names in
      let (c, _, es) =
        upsert_schedules schedulers world.to_iso registry (build_default_schedules world.zod env)
          world.times world.held in
      (c, map did es)

  pub prepare_queues : WorkerWorld S → Env → Start (Unit {0})
  unfolding scheduled
  prepare_queues world env = do
    queue ←
        lift (get_or_throw (create_queue_registry world.create_queue all_queue_names) dead_letter)
    only_if env.enable_job_schedulers (scheduled world env)

  pub consume : Env → Start (Unit {0})
  consume env = do
    only_if env.enable_queue_events (emit (opened queue_events))
    emit (opened workers)

  pub serve_metrics : WorkerWorld S → Env → Start (Unit {0})
  serve_metrics world env = do
    port ←
        configures
          (start_metrics_server world.listen env.worker_metrics_host env.worker_metrics_port)
    emit (opened metrics_server)

  pub announce : Env → Start (Unit {0})
  unfolding worker_steps
  announce env = do
    emit (
        install_signal_handlers
          (worker_steps env.enable_worker_metrics_server env.enable_queue_events))
    emit (did (log info (codes "worker started")))

  unfoldable pub start_worker : WorkerWorld S → Env → Start (Unit {0})
  unfolding connect prepare_queues consume serve_metrics announce
  start_worker world env = do
    connect world
    prepare_queues world env
    consume env
    only_if env.enable_worker_metrics_server (serve_metrics world env)
    announce env

  -- `main().catch(…)`, with what `loadEnv` gives.
  unfoldable pub worker_main : Host → WorkerWorld S → Completion Env → List Startup
  unfolding start_worker caught
  worker_main host world loaded =
      caught host (codes "worker") (do env ← lift loaded; start_worker world env)
