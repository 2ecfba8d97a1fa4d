-- ===== src/Processes/Worker/Failures.antt =====
-- A worker whose start fails (src/worker/server.ts).
use queue_worker_kit.Prelude.{◌≡◌, codes, map, List}
use queue_worker_kit.Config.Env.{Env}
use queue_worker_kit.Values.{throw, Value, config, kit, kit_message, Host}
use queue_worker_kit.Utils.SerializeError.{serialize_error}
use queue_worker_kit.Queue.Scheduler.{Schedulers}
use queue_worker_kit.Observability.Effects.{◌>>◌}
use queue_worker_kit.Processes.{Resource, Start, Report, config_report, failed_to_start}
use queue_worker_kit.Processes.Worker.{
  WorkerWorld, prepare_queues, consume, serve_metrics, announce, only_if,
}
use queue_worker_kit.Processes.Worker.Closing.{opens, seen}

-- All that is seen of it is that resources are opened: whatever it comes to, or where it throws.
abbrev Opens : {A : Type 0} → Start A → Type 0
Opens m = (rs : List Resource) × (seen m.1 ≡ map opens rs)

abbrev Stops : {A : Type 0} → Start A → Type 0
Stops m = (v : Value) → m.0 ≡ throw v → Opens m

-- What is written of an error: a configuration error's message, or that the worker failed to
-- start, with the serialised error.
abbrev pub Reports : Host → Value → Report → Type 0
Reports host (kit (config issues)) r = r ≡ config_report (kit_message (config issues))
Reports host v r = r ≡ failed_to_start (codes "worker") (serialize_error host v 0)

module _ {S : Type 0} (schedulers : Schedulers S) (world : WorkerWorld S) (env : Env) where
  abbrev rest : Start (Unit {0})
  rest = do
    prepare_queues schedulers world env
    consume schedulers env
    only_if env.enable_worker_metrics_server (serve_metrics schedulers world env)
    announce schedulers env
