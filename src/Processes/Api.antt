-- ===== src/Processes/Api.antt =====
-- src/api/server.ts: the start of an API process. Its registry names all queues.
pub mod Laws
use queue_worker_kit.Prelude.{
  ℕ, Text, codes, List, [], ◌∷◌, Bool, true, false, Option, none, some, if◌then◌else◌,
}
use queue_worker_kit.Config.Defaults.{all_queue_names, readiness_timeout_ms}
use queue_worker_kit.Config.Env.{Env}
use queue_worker_kit.Values.{kit, plain, Completion, normal, throw, Host}
use queue_worker_kit.Observability.Effects.{
  Effect, log, info, warn, after, ◌>>=◌, ◌>>◌, emit, lift, fail, pure,
}
use queue_worker_kit.Api.Setup.{Registers, build_app}
use queue_worker_kit.Processes.{
  Resource, redis, queues, http_server, StepAction, drain_readiness, ShutdownStep, Startup, did,
  opened, install_signal_handlers, Start, configures, caught,
}
use queue_worker_kit.Processes.Worker.{closing}

unfoldable pub api_steps : List ShutdownStep
api_steps =
    record { name = codes "drain-readiness"; action = drain_readiness readiness_timeout_ms }
    ∷ closing (codes "http-server") http_server
    ∷ closing (codes "queues") queues
    ∷ closing (codes "redis") redis
    ∷ []

-- What the world answers: whether Redis is ready within its time, what registering each of
-- Fastify's plugins gives, and `app.listen`.
pub record ApiWorld : Type 0 where
  pub redis_ready : Bool
  pub registers : Registers
  pub listen : Completion (Unit {0})

unfoldable pub start_api : ApiWorld → Env → Start (Unit {0})
unfolding api_steps
start_api world env = do
  emit (did (log info (codes "api starting")))
  emit (opened redis)
  if world.redis_ready
      then pure tt
      else emit
          (did (log warn (codes "redis not ready yet, starting anyway and reporting not-ready")))
  emit (opened queues)
  configures (build_app world.registers all_queue_names env)
  emit (install_signal_handlers api_steps)
  lift world.listen
  emit (opened http_server)
  emit (did (log info (codes "api started")))

unfoldable pub api_main : Host → ApiWorld → Completion Env → List Startup
unfolding start_api caught
api_main host world loaded = caught host (codes "api") (do env ← lift loaded; start_api world env)
