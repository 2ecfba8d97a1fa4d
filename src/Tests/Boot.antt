-- ===== src/Tests/Boot.antt =====
-- The theorems on the environment and on the schedules at concrete inputs.
use queue_worker_kit.Prelude.{
  ℕ, digits_value, Text, codes, text_eq, decimal, decimal-cons, ◌&&◌, ◌≡◌, ◌↔◌, ◌⊎◌, ◌≤◌, refl, ap,
  sym, arith, List, [], ◌∷◌, true, false, Option, none, some, if◌then◌else◌,
}
use queue_worker_kit.Config.Defaults.{maintenance, maintenance_scheduler_id}
use queue_worker_kit.Config.Env.{Env, load_env, env_schema, loaded, dashboard_issues}
use queue_worker_kit.Config.Env.Variables.{Url, int_from_env}
use queue_worker_kit.Config.Env.Integers.{int_from_env-decimal}
use queue_worker_kit.Config.Env.Numerals.{Numeral, int_variable_iff}
use queue_worker_kit.Jobs.Schemas.{with_payload_schemas}
use queue_worker_kit.Tests.Bodies.{formats, parser, parser-laws}
use queue_worker_kit.Dictionary.{lookup, insert}
use queue_worker_kit.Values.{nat, normal, normal-injective}
use queue_worker_kit.Jobs.Types.{Zod, success}
use queue_worker_kit.Observability.Effects.{Effect}
use queue_worker_kit.Queue.Registry.{Queue, QueueRegistry, get, create_queue_registry}
use queue_worker_kit.Queue.Scheduler.{
  Moment, ScheduleSpec, Entry, Schedulers, SchedulersLaws, upsert_schedules,
  build_default_schedules, cleanup_window,
}
use queue_worker_kit.Queue.Scheduler.Laws.{Holds, Agrees, upsert_schedules-Holds}
use queue_worker_kit.Queue.Scheduler.Run.{Runs, upsert_schedules-Runs}
use queue_worker_kit.Tests.Fixtures.{test_zod, test_zod-laws}
use queue_worker_kit.Tests.Kit.{test_processors}
use queue_worker_kit.Tests.Schemas.{test_builders, test_builders-laws}

abbrev pub test_url : Text → Option Url
test_url s = some (record { protocol = codes "redis:"; hostname = codes "localhost" })

-- A production environment with the dashboard and a port.
abbrev pub variable : Text → Option Text
variable name =
    if text_eq name (codes "NODE_ENV")
    then some (codes "production")
    else if text_eq name (codes "PORT")
    then some (codes "8080")
    else if text_eq name (codes "ENABLE_BULL_BOARD")
    then some (codes "true")
    else if text_eq name (codes "BULL_BOARD_USERNAME")
    then some (codes "operator")
    else if text_eq name (codes "BULL_BOARD_PASSWORD")
    then some (codes "correct horse battery")
    else none

abbrev pub env : Env
env = record {
  node_env = codes "production";
  host = codes "0.0.0.0";
  port = nat 8080;
  redis_url = codes "redis://localhost:6379";
  log_level = codes "info";
  log_pretty = none;
  queue_prefix = codes "qwk";
  worker_concurrency = nat 10;
  job_attempts = nat 5;
  job_backoff_delay_ms = nat 2000;
  job_remove_on_complete_count = nat 1000;
  job_remove_on_fail_count = nat 5000;
  worker_rate_limit_max = nat 100;
  worker_rate_limit_duration_ms = nat 1000;
  job_timeout_ms = nat 30000;
  shutdown_timeout_ms = nat 30000;
  dead_letter_max_entries = nat 5000;
  enable_job_schedulers = true;
  enable_queue_events = true;
  enable_worker_metrics_server = true;
  worker_metrics_host = codes "0.0.0.0";
  worker_metrics_port = nat 9090;
  maintenance_cleanup_cron = codes "0 * * * *";
  enable_bull_board = true;
  bull_board_username = some (codes "operator");
  bull_board_password = some (codes "correct horse battery");
}

pub env-load : load_env test_builders test_url variable ≡ normal env
unfolding load_env env_schema loaded dashboard_issues text_eq digits_value
env-load = refl

int_from_env-decimal_example :
    int_from_env test_builders 1 65535 (some (decimal 8080)) ≡ success (nat 8080)
int_from_env-decimal_example =
    int_from_env-decimal test_builders-laws 1 65535 8080 (omega arith) (omega arith) (omega arith)

-- Schedulers kept as a function of the queue's name and the id.
abbrev pub Store : Type 0
Store = Text → Text → Option Entry

abbrev put : Text → Text → Entry → Store → Store
put queue id e s name j = if text_eq queue name && text_eq id j then some e else s name j

abbrev pub test_schedulers : Schedulers Store
test_schedulers = record {
  upsert = λ q id e s. normal (put q.name id e s);
  list = λ q s. normal [];
  remove = λ q id s. normal (false, s);
  entry = λ s queue id. s queue id;
}

test_schedulers-laws : SchedulersLaws test_schedulers
test_schedulers-laws = record {
  entry-upsert = λ q id e s s' queue j h. sym (ap (λ (t : Store). t queue j) (normal-injective h));
}

test_schedulers-answer :
    (q : Queue) (id : Text) (e : Entry) (s : Store)
    → (s' : Store) × (test_schedulers.upsert q id e s ≡ normal s')
test_schedulers-answer q id e s = (put q.name id e s, refl)

decimal-date : (ms : ℕ) → test_zod.is_datetime (decimal ms) ≡ true
decimal-date ms = let (c, s, e) = decimal-cons ms in rw e (ground arith)

abbrev pub moments : ℕ → Moment
moments k = record { built = 3_000_000_000; enqueued = 3_000_000_001 }

abbrev pub nothing_held : Store
nothing_held queue id = none

abbrev maintenance_queue : Queue
maintenance_queue = record {
  name = maintenance;
  add = λ name stored options. normal (some (codes "1"));
}

abbrev queues : QueueRegistry
queues = create_queue_registry (λ name. record maintenance_queue { name = name }) (maintenance ∷ [])

queues-maintenance : get queues maintenance ≡ some maintenance_queue
unfolding get create_queue_registry lookup insert text_eq
queues-maintenance = refl

abbrev spec : ScheduleSpec
spec = record {
  id = codes "nightly";
  queue = maintenance;
  job_name = codes "maintenance.cleanup";
  pattern = codes "0 0 * * *";
  tz = some (codes "Europe/Paris");
  build_payload = cleanup_window;
}

upsert_schedules-Holds_example :
    (s' : Store) × (es : List Effect) × (upsert_schedules test_schedulers decimal queues
        (spec ∷ [])
        moments
        nothing_held
      ≡ (normal tt, s', es))
    × Holds test_schedulers test_schedulers-laws decimal queues s' (spec ∷ []) moments
    × Agrees test_schedulers test_schedulers-laws decimal queues nothing_held s' (spec ∷ [])
upsert_schedules-Holds_example =
    upsert_schedules-Holds test_schedulers test_schedulers-laws decimal queues
      test_schedulers-answer (spec ∷ []) moments nothing_held (tt, tt)
      ((maintenance_queue, queues-maintenance), tt)

abbrev parsing_zod : Zod
parsing_zod = with_payload_schemas parser test_zod

upsert_schedules-Runs_example :
    (s' : Store) × (es : List Effect) × (e : Entry) × (upsert_schedules test_schedulers decimal
        queues
        (build_default_schedules parsing_zod env)
        moments
        nothing_held
      ≡ (normal tt, s', es))
    × (test_schedulers.entry s' maintenance maintenance_scheduler_id ≡ some e)
    × (e.pattern ≡ codes "0 * * * *")
    × Runs formats parser parser-laws test_zod test_zod-laws test_processors decimal decimal-date
        (λ ms. refl)
        e
        (moments 0)
upsert_schedules-Runs_example =
    upsert_schedules-Runs formats parser parser-laws test_zod test_zod-laws test_processors decimal
      decimal-date (λ ms. refl) test_schedulers test_schedulers-laws queues test_schedulers-answer
      env maintenance_queue moments nothing_held queues-maintenance

int_variable_iff_example :
    (test_builders.with_default
        (nat 3000)
        (int_from_env test_builders 1 65535)
        (some (codes "8080"))
      ≡ success (nat 8080))
    ↔ (((some (codes "8080") ≡ none) × (nat 8080 ≡ nat 3000))
        ⊎ ((s : Text) × (some (codes "8080") ≡ some s)
            × ((k : ℕ) × Numeral s k × (nat 8080 ≡ nat k) × (1 ≤ k) × (k ≤ 65535))))
int_variable_iff_example =
    int_variable_iff test_builders-laws 1 65535 3000 (some (codes "8080")) (nat 8080) (omega arith)
