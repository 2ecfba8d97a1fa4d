-- ===== src/Processes/Worker/Closing.antt =====
-- What a worker process opens, its shutdown closes, and in an order that never cuts a step off
-- from the connection that it needs (src/worker/server.ts with src/worker/graceful-shutdown.ts).
use mathlib.Core.List.{Perm, append_assoc, perm_append_comm}
use mathlib.Core.List.Perm
use queue_worker_kit.Prelude.{
  ◌≡◌, refl, ap, sym, ◌∙◌, arith, Text, codes, text_eq, any, map, ◌++◌, List, [], ◌∷◌, Bool, true,
  false, Bool-cases, inl, inr,
}
use queue_worker_kit.Config.Env.{Env}
use queue_worker_kit.Values.{normal, throw}
use queue_worker_kit.Queue.Scheduler.{Schedulers}
use queue_worker_kit.Queue.Registry.{get_or_throw}
use queue_worker_kit.Observability.Effects.{◌>>=◌, lift, Effect}
use queue_worker_kit.Api.Setup.{AppStep, start_metrics_server}
use queue_worker_kit.Processes.{
  Resource, redis, queues, queue_events, workers, metrics_server, StepAction, mark_draining,
  drain_dead_letters, close, ShutdownStep, Startup, did, opened, install_signal_handlers,
  configured, configures, Start,
}
use queue_worker_kit.Processes.Worker.{
  WorkerWorld, worker_steps, start_worker, closing, connect, prepare_queues, scheduled, consume,
  serve_metrics, announce, only_if, when,
}
use queue_worker_kit.Worker.Shutdown.{ShutdownEvent, idle, run}
use queue_worker_kit.Worker.Shutdown.Trace.{gather}
use queue_worker_kit.Worker.Shutdown.Order.{started_step, ended_step}
use queue_worker_kit.Worker.Shutdown.Waits.{Member, run-waits}

-- A start as an orchestrator would see it: the resources opened, and the signal handlers installed
-- with the steps of their controller.
pub data Seen : Type 0 where
  opens : Resource → Seen
  installs : List ShutdownStep → Seen

abbrev pub seen_in : Startup → List Seen
seen_in (opened r) = opens r ∷ []
seen_in (install_signal_handlers steps) = installs steps ∷ []
seen_in e = []

abbrev pub seen : List Startup → List Seen
seen [] = []
seen (e ∷ es) = seen_in e ++ seen es

abbrev closed_by : StepAction → List Resource
closed_by (close r) = r ∷ []
closed_by a = []

-- The resources that the steps close, in their order.
abbrev pub closed : List ShutdownStep → List Resource
closed [] = []
closed (s ∷ steps) = closed_by s.action ++ closed steps

abbrev pub names : List ShutdownStep → List Text
names steps = map (λ s. s.name) steps

pub seen-append : (xs ys : List Startup) → seen (xs ++ ys) ≡ seen xs ++ seen ys
seen-append [] ys = refl
seen-append (e ∷ xs) ys =
    ap (λ (l : List Seen). seen_in e ++ l) (seen-append xs ys)
    ∙ sym (append_assoc (seen_in e) (seen xs) (seen ys))

-- Setting up a server opens no port of its own to an orchestrator.
pub seen-configured : (steps : List AppStep) → seen (map configured steps) ≡ []
seen-configured [] = refl
seen-configured (step ∷ steps) = seen-configured steps

-- Where the action ends normally, the list is what is seen of it.
abbrev Shows : {A : Type 0} → Start A → List Seen → Type 0
Shows {A} m xs = (a : A) → m.0 ≡ normal a → seen m.1 ≡ xs

bind-Shows :
    {A B : Type 0} (m : Start A) (k : A → Start B) {xs ys : List Seen}
    → Shows m xs
    → ((a : A) → Shows (k a) ys)
    → Shows (m >>= k) (xs ++ ys)
bind-Shows (normal a, es) k first later b h =
    seen-append es (k a).1 ∙ ground (arith, first a refl, later a b h)
bind-Shows (throw v, es) k first later b h = cc

only_if-Shows :
    (on : Bool) (m : Start (Unit {0})) {xs : List Seen}
    → Shows m xs
    → Shows (only_if on m) (when on xs)
only_if-Shows true m g a h = g a h
only_if-Shows false m g a h = refl

only_if_quiet : (on : Bool) (m : Start (Unit {0})) → Shows m [] → Shows (only_if on m) []
only_if_quiet true m g a h = g a h
only_if_quiet false m g a h = refl

pub seen-did : (es : List Effect) → seen (map did es) ≡ []
seen-did [] = refl
seen-did (e ∷ es) = seen-did es

reordered :
    (events metrics : List Resource)
    → Perm
        ((redis ∷ queues ∷ events) ++ workers ∷ metrics)
        ((workers ∷ metrics) ++ (events ++ queues ∷ redis ∷ []))
reordered events metrics =
    Perm.trans (perm_append_comm (redis ∷ queues ∷ events) (workers ∷ metrics)) (
      Perm.append_left (workers ∷ metrics) (
        Perm.trans (perm_append_comm (redis ∷ queues ∷ []) events)
          (Perm.append_left events (Perm.swap queues redis []))))

-- What a worker has opened when its start is over.
abbrev all_opened : Bool → Bool → List Resource
all_opened metrics events =
    redis ∷ queues ∷ when events (queue_events ∷ []) ++ workers ∷ when metrics (metrics_server ∷ [])

all_opened-Perm :
    (metrics events : Bool)
    → Perm (all_opened metrics events) (closed (worker_steps metrics events))
unfolding worker_steps
all_opened-Perm false false = reordered [] []
all_opened-Perm false true = reordered (queue_events ∷ []) []
all_opened-Perm true false = reordered [] (metrics_server ∷ [])
all_opened-Perm true true = reordered (queue_events ∷ []) (metrics_server ∷ [])

-- What is to be done, in order, before Redis is closed.
abbrev pub before_redis : Bool → Bool → List StepAction
before_redis metrics events =
    mark_draining ∷ close workers ∷ drain_dead_letters ∷ when metrics (close metrics_server ∷ [])
    ++ when events (close queue_events ∷ [])
    ++ close queues ∷ []

abbrev pub actions : List ShutdownStep → List StepAction
actions steps = map (λ s. s.action) steps

abbrev redis_step : ShutdownStep
redis_step = record { name = codes "redis"; action = close redis }

abbrev earlier_steps : Bool → Bool → List ShutdownStep
earlier_steps metrics events =
    record { name = codes "mark-draining"; action = mark_draining }
      ∷ closing (codes "workers") workers
      ∷ record { name = codes "dead-letter-drain"; action = drain_dead_letters }
      ∷ when metrics (closing (codes "metrics-server") metrics_server ∷ [])
    ++ when events (closing (codes "queue-events") queue_events ∷ [])
    ++ closing (codes "queues") queues ∷ []

redis_is_last :
    (metrics events : Bool)
    → (worker_steps metrics events ≡ earlier_steps metrics events ++ redis_step ∷ [])
      × (actions (earlier_steps metrics events) ≡ before_redis metrics events)
      × (names (worker_steps metrics events)
          ≡ names (earlier_steps metrics events) ++ codes "redis" ∷ [])
unfolding worker_steps
redis_is_last false false = (refl, refl, refl)
redis_is_last false true = (refl, refl, refl)
redis_is_last true false = (refl, refl, refl)
redis_is_last true true = (refl, refl, refl)

redis_apart :
    (metrics events : Bool)
    → any (text_eq (codes "redis")) (names (earlier_steps metrics events)) ≡ false
unfolding text_eq
redis_apart false false = refl
redis_apart false true = refl
redis_apart true false = refl
redis_apart true true = refl

-- The last step of a worker's shutdown closes Redis. Those before it flip the liveness flag, close
-- the workers, wait for the dead-letter writes, close the two listeners that are on, and close the
-- queues. In every sequence of events, the last one starts only when each of them has ended,
-- completed or failed, in that order.
pub worker_steps-redis_waits :
    (metrics events : Bool) (es : List ShutdownEvent)
    → Member
        (codes "redis")
        (gather started_step (run (names (worker_steps metrics events)) idle es).1)
    → (before : List ShutdownStep) × (worker_steps metrics events
        ≡ before ++ record { name = codes "redis"; action = close redis } ∷ [])
      × (actions before ≡ before_redis metrics events)
      × ((rest : List Text) × (gather ended_step
              (run (names (worker_steps metrics events)) idle es).1
            ≡ names before ++ rest))
worker_steps-redis_waits metrics events es started =
    let (last, acts, named) = redis_is_last metrics events in
    let waits =
      run-waits (names (earlier_steps metrics events)) (codes "redis") []
        (redis_apart metrics events) es (rw named at started) in
    (earlier_steps metrics events, last, acts, rw named waits)

all_seen :
    (metrics events : Bool) (rest : List Seen)
    → (opens redis ∷ opens queues ∷ [])
        ++ ([]
            ++ ((when events (opens queue_events ∷ []) ++ opens workers ∷ [])
                ++ (when metrics (opens metrics_server ∷ []) ++ rest)))
      ≡ map opens (all_opened metrics events) ++ rest
all_seen false false rest = refl
all_seen false true rest = refl
all_seen true false rest = refl
all_seen true true rest = refl

module _ {S : Type 0} (schedulers : Schedulers S) (world : WorkerWorld S) (env : Env) where
  connect-Shows : Shows (connect schedulers world) (opens redis ∷ opens queues ∷ [])
  unfolding connect
  connect-Shows a h = elim (Bool-cases world.redis_ready) [ inl y ↦ rw y refl | inr n ↦ rw n refl ]

  scheduled-Shows : Shows (scheduled schedulers world env) []
  unfolding scheduled
  scheduled-Shows a h = search seen-did

  prepare_queues-Shows : Shows (prepare_queues schedulers world env) []
  unfolding prepare_queues
  prepare_queues-Shows =
      bind-Shows (lift (get_or_throw _ _)) _ (λ a h. refl)
        (λ q.
          only_if_quiet env.enable_job_schedulers (scheduled schedulers world env) scheduled-Shows)

  consume-Shows :
      Shows
        (consume schedulers env)
        (when env.enable_queue_events (opens queue_events ∷ []) ++ opens workers ∷ [])
  unfolding consume
  consume-Shows =
      bind-Shows (only_if env.enable_queue_events _) _
        (only_if-Shows env.enable_queue_events _ (λ a h. refl)) (λ u a h. refl)

  serve-Shows : Shows (serve_metrics schedulers world env) (opens metrics_server ∷ [])
  unfolding serve_metrics
  serve-Shows =
      let server =
        start_metrics_server world.listen env.worker_metrics_host env.worker_metrics_port in
      bind-Shows (configures server) _ (λ a h. seen-configured server.1) (λ p a h. refl)

  announce-Shows :
      Shows
        (announce schedulers env)
        (installs (worker_steps env.enable_worker_metrics_server env.enable_queue_events) ∷ [])
  unfolding announce
  announce-Shows a h = refl

  start-Shows : Shows (start_worker schedulers world env) (
      (opens redis ∷ opens queues ∷ [])
      ++ ([]
          ++ ((when env.enable_queue_events (opens queue_events ∷ []) ++ opens workers ∷ [])
              ++ (when env.enable_worker_metrics_server (opens metrics_server ∷ [])
                  ++ installs
                      (worker_steps env.enable_worker_metrics_server env.enable_queue_events)
                    ∷ []))))
  unfolding start_worker
  start-Shows = bind-Shows (connect schedulers world) _ connect-Shows (λ _.
      bind-Shows (prepare_queues schedulers world env) _ prepare_queues-Shows (λ _.
        bind-Shows (consume schedulers env) _ consume-Shows (λ _.
          bind-Shows (only_if env.enable_worker_metrics_server _) _
            (only_if-Shows env.enable_worker_metrics_server _ serve-Shows) (λ _. announce-Shows))))

  -- A worker that has started has installed its signal handlers, once and last. The resources that
  -- it has opened until then are exactly those that the steps of its shutdown will close, whichever
  -- of its listeners the environment has turned off.
  pub start_worker-closes :
      (start_worker schedulers world env).0 ≡ normal tt
      → let steps = worker_steps env.enable_worker_metrics_server env.enable_queue_events in
        (resources : List Resource) × (seen (start_worker schedulers world env).1
          ≡ map opens resources ++ installs steps ∷ [])
        × Perm resources (closed steps)
  start_worker-closes started =
      let metrics = env.enable_worker_metrics_server in
      let events = env.enable_queue_events in
      (
        all_opened metrics events,
        start-Shows tt started ∙ all_seen metrics events _,
        all_opened-Perm metrics events,
      )
