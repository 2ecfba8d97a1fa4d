-- ===== src/Processes/Draining.antt =====
-- The health checks during a shutdown: src/api/server.ts and src/worker/server.ts with
-- src/api/routes/health.routes.ts and src/worker/metrics-server.ts.
use queue_worker_kit.Prelude.{
  ◌≡◌, refl, Text, codes, text_eq, any, ◌&&◌, List, [], ◌∷◌, Bool, true, false, some,
}
use queue_worker_kit.Worker.Shutdown.{ShutdownEvent, ShutdownOutput, idle, run}
use queue_worker_kit.Worker.Shutdown.Trace.{gather}
use queue_worker_kit.Worker.Shutdown.Order.{started_step, ended_step}
use queue_worker_kit.Worker.Shutdown.Waits.{Member, run-waits, run-reaches}
use queue_worker_kit.Queue.Connection.{PingEvent}
use queue_worker_kit.Api.Health.{unready, ready, worker_live}
use queue_worker_kit.Processes.{
  redis, queues, http_server, StepAction, mark_draining, drain_readiness, ShutdownStep,
}
use queue_worker_kit.Processes.Worker.{worker_steps, closing}
use queue_worker_kit.Processes.Worker.Closing.{names}
use queue_worker_kit.Processes.Api.{api_steps}

-- The flag `shuttingDown`: the steps that set it do so as they start.
abbrev flips : StepAction → Bool
flips mark_draining = true
flips (drain_readiness ms) = true
flips a = false

unfoldable pub is_draining : List ShutdownStep → List ShutdownOutput → Bool
is_draining steps outputs =
    any (λ s. flips s.action && any (text_eq s.name) (gather started_step outputs)) steps

abbrev api_run : List ShutdownEvent → List ShutdownOutput
api_run es = (run (names api_steps) idle es).1

-- The first step of the API's shutdown pauses for one second with its readiness off. In every
-- sequence of events, once the shutdown has begun to close its HTTP server, that step has ended,
-- completed or failed, and readiness has the answer 503, whatever Redis says.
pub api_steps-unready :
    (es : List ShutdownEvent) (pings : List PingEvent)
    → Member (codes "http-server") (gather started_step (api_run es))
    → ((later : List ShutdownStep) × (api_steps
          ≡ record { name = codes "drain-readiness"; action = drain_readiness 1000 } ∷ later))
      × ((rest : List Text) × (gather ended_step (api_run es) ≡ codes "drain-readiness" ∷ rest))
      × (ready (is_draining api_steps (api_run es)) pings ≡ some unready)
unfolding api_steps ready is_draining text_eq
api_steps-unready es pings started =
    let first : List Text = codes "drain-readiness" ∷ [] in
    let later : List Text = codes "queues" ∷ codes "redis" ∷ [] in
    let ended = run-waits first (codes "http-server") later refl es started in
    let (more, reached) = run-reaches first (codes "http-server") later refl es started in
    (
      (
        closing (codes "http-server") http_server
            ∷ closing (codes "queues") queues
            ∷ closing (codes "redis") redis
            ∷ [],
        refl,
      ),
      ended,
      rw reached refl,
    )

abbrev worker_run : Bool → Bool → List ShutdownEvent → List ShutdownOutput
worker_run metrics events es = (run (names (worker_steps metrics events)) idle es).1

-- In every sequence of events, once the worker's shutdown has begun to close its workers, liveness
-- has the answer 503.
pub worker_steps-unlive :
    (metrics events : Bool) (es : List ShutdownEvent)
    → Member (codes "workers") (gather started_step (worker_run metrics events es))
    → (worker_live
        (is_draining (worker_steps metrics events) (worker_run metrics events es))).status_code
      ≡ 503
unfolding worker_steps worker_live is_draining text_eq
worker_steps-unlive metrics events es started =
    let (more, reached) =
      run-reaches (codes "mark-draining" ∷ []) (codes "workers") _ refl es started in
    rw reached refl
