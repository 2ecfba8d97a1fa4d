-- ===== src/Api/Setup.antt =====
-- How the HTTP servers are put together: `buildApp` of src/api/app.ts with the routes of
-- src/api/routes, `registerBullBoard` of src/api/bull-board.ts, and `startWorkerMetricsServer` of
-- src/worker/metrics-server.ts. Fastify and its plugins are libraries: a registration may fail.
pub mod Laws
use queue_worker_kit.Prelude.{
  ℕ, not, map, Text, codes, List, [], ◌∷◌, Bool, true, false, Option, none, some, or_else,
  if◌then◌else◌,
}
use queue_worker_kit.Config.Defaults.{http_body_limit_bytes, http_request_timeout_ms}
use queue_worker_kit.Config.Env.{Env, is_production}
use queue_worker_kit.Values.{Number, kit, plain, Completion, normal, throw}
use queue_worker_kit.Observability.Effects.{
  Effect, log, info, Traced, ◌>>=◌, ◌>>◌, emit, lift, fail, pure,
}

-- What `Fastify(…)` is given; an absent value leaves Fastify's own. `gen_req_id`
-- says whether the ids of requests are the program's.
pub record AppOptions : Type 0 where
  pub log_level : Option Text
  pub body_limit : ℕ
  pub connection_timeout : Option ℕ
  pub trust_proxy : Option Bool
  pub gen_req_id : Bool

pub data Method : Type 0 where
  get post : Method

pub record Route : Type 0 where
  pub method : Method
  pub path : Text

-- `jobs_routes` has the queues that it can read, `helmet` whether its content policy is on.
pub data Plugin : Type 0 where
  helmet : Bool → Plugin
  health_routes metrics_routes : Plugin
  jobs_routes : List Text → Plugin
  basic_auth : Text → Text → Plugin
  board_ui : Plugin

-- The calls, in their order. `open_scope` begins the encapsulated plugin of a prefix;
-- `set_error_handler` says whether internals are exposed.
pub data AppStep : Type 0 where
  create_app : AppOptions → AppStep
  set_validator_compiler add_request_hook set_not_found_handler : AppStep
  set_error_handler : Bool → AppStep
  registering : Plugin → AppStep
  route : Route → AppStep
  open_scope : Text → AppStep
  add_auth_hook : AppStep
  create_board : List Text → AppStep
  listen : Text → Number → AppStep
  wrote : Effect → AppStep

abbrev pub Setup {ℓ} : Type ℓ → Type ℓ
Setup A = Traced AppStep A

abbrev at : Method → Text → Route
at method path = record { method = method; path = path }

-- The routes that a plugin of the program adds.
unfoldable pub routes_of : Plugin → List Route
routes_of health_routes = at get (codes "/health/live") ∷ at get (codes "/health/ready") ∷ []
routes_of metrics_routes = at get (codes "/metrics") ∷ []
routes_of (jobs_routes readable) =
    at post (codes "/jobs/email")
    ∷ at post (codes "/jobs/report")
    ∷ at post (codes "/jobs/cleanup")
    ∷ at get (codes "/jobs/:queue/:id")
    ∷ []
routes_of _ = []

-- What Fastify answers to each registration.
abbrev pub Registers : Type 0
Registers = Plugin → Completion (Unit {0})

-- `await app.register(plugin)`: its routes are there once it has been registered.
unfoldable pub register : Registers → Plugin → Setup (Unit {0})
unfolding routes_of
register registers p = do
  emit (registering p)
  lift (registers p)
  (normal tt, map route (routes_of p))

abbrev pub bull_board_base_path : Text
bull_board_base_path = codes "/admin/queues"

unfoldable pub register_bull_board : Registers → List Text → Text → Text → Setup (Unit {0})
register_bull_board registers queues username password = do
  emit (open_scope bull_board_base_path)
  register registers (basic_auth username password)
  emit add_auth_hook
  emit (create_board queues)
  register registers board_ui

mount : Registers → List Text → Option Text → Option Text → Setup (Unit {0})
unfolding register_bull_board
mount registers queues (some username) (some password) = do
  register_bull_board registers queues username password
  emit (wrote (log info (codes "bull board mounted behind basic auth")))
mount registers queues username password =
    fail (kit (plain (codes "Bull Board is enabled but its credentials are missing")))

abbrev app_options : AppOptions
app_options = record {
  log_level = none;
  body_limit = http_body_limit_bytes;
  connection_timeout = some http_request_timeout_ms;
  trust_proxy = some false;
  gen_req_id = true;
}

-- `queues` are the names of the registry.
unfoldable pub build_app : Registers → List Text → Env → Setup (Unit {0})
unfolding mount
build_app registers queues env = do
  emit (create_app app_options)
  emit set_validator_compiler
  register registers (helmet false)
  emit add_request_hook
  emit (set_error_handler (not (is_production env)))
  emit set_not_found_handler
  register registers health_routes
  register registers metrics_routes
  register registers (jobs_routes queues)
  if env.enable_bull_board
      then mount registers queues env.bull_board_username env.bull_board_password
      else pure tt

-- `app.addresses()[0]?.port ?? port`
unfoldable pub bound_port : List Number → Number → Number
bound_port [] port = port
bound_port (p ∷ ports) port = p

-- `listens` is what `app.listen` answers: the ports that were bound.
unfoldable pub start_metrics_server : Completion (List Number) → Text → Number → Setup Number
unfolding bound_port
start_metrics_server listens host port = do
  emit (
      create_app (record {
        log_level = some (codes "warn");
        body_limit = 1024;
        connection_timeout = none;
        trust_proxy = none;
        gen_req_id = false;
      }))
  emit (route (at get (codes "/metrics")))
  emit (route (at get (codes "/health/live")))
  emit (listen host port)
  ports ← lift listens
  emit (wrote (log info (codes "worker metrics server listening")))
  pure (bound_port ports port)
