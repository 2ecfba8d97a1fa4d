-- ===== src/Tests/Processes.antt =====
-- The theorems on the two processes at concrete inputs.
use mathlib.Core.List.{Perm}
use queue_worker_kit.Prelude.{
  ◌≡◌, refl, not, decimal, ◌++◌, Text, codes, text_eq, map, List, [], ◌∷◌, true, false, Option,
  none, some, if◌then◌else◌,
}
use queue_worker_kit.Config.Env.{Env, is_production}
use queue_worker_kit.Dictionary.{lookup, insert}
use queue_worker_kit.Values.{nat, Value, kit, plain, normal, throw}
use queue_worker_kit.Queue.Registry.{get_or_throw, get, create_queue_registry}
use queue_worker_kit.Queue.Scheduler.{upsert_schedules, build_default_schedules}
use queue_worker_kit.Processes.{Resource, redis, drain_readiness, close, ShutdownStep}
use queue_worker_kit.Processes.Worker.{WorkerWorld, worker_steps, start_worker}
use queue_worker_kit.Processes.Worker.Closing.{
  opens, installs, seen, closed, names, actions, before_redis, start_worker-closes,
  worker_steps-redis_waits,
}
use queue_worker_kit.Processes.Api.{ApiWorld}
use queue_worker_kit.Api.Setup.{basic_auth, Registers, build_app, start_metrics_server}
use queue_worker_kit.Api.Setup.Laws.{is_guarded, nothing, build_app-is_guarded}
use queue_worker_kit.Config.Defaults.{all_queue_names}
use queue_worker_kit.Worker.Shutdown.{ShutdownEvent, shutdown, step_settled, idle, run, react}
use queue_worker_kit.Worker.Shutdown.Trace.{gather}
use queue_worker_kit.Worker.Shutdown.Order.{started_step, ended_step}
use queue_worker_kit.Worker.Shutdown.Waits.{Member}
use queue_worker_kit.Tests.Fixtures.{test_zod}
use queue_worker_kit.Processes.Api.{api_steps}
use queue_worker_kit.Processes.Draining.{is_draining, api_steps-unready}
use queue_worker_kit.Api.Health.{ready, unready}
use queue_worker_kit.Tests.Kit.{answering}
use queue_worker_kit.Tests.Boot.{env, Store, test_schedulers, nothing_held, moments}

abbrev in_use : Value
in_use = kit (plain (codes "listen EADDRINUSE"))

abbrev worker_world : WorkerWorld Store
worker_world = record {
  zod = test_zod;
  redis_ready = false;
  create_queue = answering;
  held = nothing_held;
  to_iso = decimal;
  times = moments;
  listen = normal (nat 9_090 ∷ []);
}

abbrev busy_world : WorkerWorld Store
busy_world = record worker_world { listen = throw in_use }

worker_started : (start_worker test_schedulers worker_world env).0 ≡ normal tt
unfolding start_worker start_metrics_server upsert_schedules build_default_schedules get_or_throw
    get create_queue_registry lookup insert text_eq
worker_started = refl

start_worker-closes_example :
    (resources : List Resource) × (seen (start_worker test_schedulers worker_world env).1
      ≡ map opens resources ++ installs (worker_steps true true) ∷ [])
    × Perm resources (closed (worker_steps true true))
start_worker-closes_example = start_worker-closes test_schedulers worker_world env worker_started

abbrev events : List ShutdownEvent
events =
    shutdown (codes "SIGTERM")
    ∷ step_settled (normal tt)
    ∷ step_settled (throw in_use)
    ∷ step_settled (normal tt)
    ∷ step_settled (normal tt)
    ∷ []

redis_started :
    Member
      (codes "redis")
      (gather started_step (run (names (worker_steps false false)) idle events).1)
unfolding run react worker_steps text_eq
redis_started = refl

worker_steps-redis_waits_example :
    (before : List ShutdownStep) × (worker_steps false false
      ≡ before ++ record { name = codes "redis"; action = close redis } ∷ [])
    × (actions before ≡ before_redis false false)
    × ((rest : List Text) × (gather ended_step
            (run (names (worker_steps false false)) idle events).1
          ≡ names before ++ rest))
worker_steps-redis_waits_example = worker_steps-redis_waits false false events redis_started

-- The dashboard is on, and its credentials are missing.
abbrev no_credentials : Text → Option Text
no_credentials name = if text_eq name (codes "ENABLE_BULL_BOARD") then some (codes "true") else none

abbrev api_world : ApiWorld
api_world = record { redis_ready = true; registers = λ p. normal tt; listen = normal tt }

-- The dashboard's plugin refuses its credentials.
abbrev refusing : Registers
refusing (basic_auth username password) = throw in_use
refusing p = normal tt

build_app-is_guarded_example :
    is_guarded (not (is_production env)) nothing (build_app refusing all_queue_names env).1 ≡ true
build_app-is_guarded_example = build_app-is_guarded refusing all_queue_names env

abbrev closing_server : List ShutdownEvent
closing_server = shutdown (codes "SIGTERM") ∷ step_settled (normal tt) ∷ []

server_closing :
    Member (codes "http-server") (gather started_step (run (names api_steps) idle closing_server).1)
unfolding run react api_steps text_eq
server_closing = refl

api_steps-unready_example :
    ((later : List ShutdownStep) × (api_steps
        ≡ record { name = codes "drain-readiness"; action = drain_readiness 1000 } ∷ later))
    × ((rest : List Text) × (gather ended_step (run (names api_steps) idle closing_server).1
          ≡ codes "drain-readiness" ∷ rest))
    × (ready (is_draining api_steps (run (names api_steps) idle closing_server).1) []
        ≡ some unready)
api_steps-unready_example = api_steps-unready closing_server [] server_closing
