-- ===== src/Config/Env.antt =====
-- src/config/env.ts: the environment, its checks across variables, and how it is loaded.
pub mod Variables
pub mod Integers
pub mod Numerals
pub mod Dashboard
pub mod Laws
use queue_worker_kit.Prelude.{
  ℕ, Text, codes, text_eq, any, join, map, ltb, length, leb, ◌&&◌, ◌+◌, ◌++◌, List, [], ◌∷◌, Bool,
  true, false, not, Option, none, some, or_else, if◌then◌else◌,
}
use queue_worker_kit.Values.{Number, nat, Issue, kit, config, Completion, normal, throw}
use queue_worker_kit.Jobs.Types.{Parsed, success, failure}
use queue_worker_kit.Config.Schema.{Schema, Source, ObjectSchema, Builders}
use Variables.{
  int_from_env, optional_bool_from_env, bool_from_env, optional_secret, Url, redis_url_schema,
  cron_schema, queue_prefix_schema, host_schema,
}

pub record Env : Type 0 where
  pub node_env : Text
  pub host : Text
  pub port : Number
  pub redis_url : Text
  pub log_level : Text
  pub log_pretty : Option Bool
  pub queue_prefix : Text
  pub worker_concurrency : Number
  pub job_attempts : Number
  pub job_backoff_delay_ms : Number
  pub job_remove_on_complete_count : Number
  pub job_remove_on_fail_count : Number
  pub worker_rate_limit_max : Number
  pub worker_rate_limit_duration_ms : Number
  pub job_timeout_ms : Number
  pub shutdown_timeout_ms : Number
  pub dead_letter_max_entries : Number
  pub enable_job_schedulers : Bool
  pub enable_queue_events : Bool
  pub enable_worker_metrics_server : Bool
  pub worker_metrics_host : Text
  pub worker_metrics_port : Number
  pub maintenance_cleanup_cron : Text
  pub enable_bull_board : Bool
  pub bull_board_username : Option Text
  pub bull_board_password : Option Text

abbrev pub node_envs : List Text
node_envs = codes "development" ∷ codes "test" ∷ codes "production" ∷ []

abbrev pub log_levels : List Text
log_levels = map codes ("trace" ∷ "debug" ∷ "info" ∷ "warn" ∷ "error" ∷ "fatal" ∷ "silent" ∷ [])

-- The variables in the order of the object's keys, as nested pairs.
abbrev pub Variables : Type 0
Variables =
    Text
    × (Text
        × (Number
            × (Text
                × (Text
                    × ((Option Bool)
                        × (Text
                            × (Number
                                × (Number
                                    × (Number
                                        × (Number
                                            × (Number
                                                × (Number
                                                    × (Number
                                                        × (Number
                                                            × (Number
                                                            × (Number
                                                            × (Bool
                                                            × (Bool
                                                            × (Bool
                                                            × (Text
                                                            × (Number
                                                            × (Text
                                                            × (Bool
                                                            × ((Option Text)
                                                            × ((Option Text)
                                                            × Unit {0})))))))))))))))))))))))))

abbrev pub env_of : Variables → Env
env_of p = record {
  node_env = p.0;
  host = p.1.0;
  port = p.1.1.0;
  redis_url = p.1.1.1.0;
  log_level = p.1.1.1.1.0;
  log_pretty = p.1.1.1.1.1.0;
  queue_prefix = p.1.1.1.1.1.1.0;
  worker_concurrency = p.1.1.1.1.1.1.1.0;
  job_attempts = p.1.1.1.1.1.1.1.1.0;
  job_backoff_delay_ms = p.1.1.1.1.1.1.1.1.1.0;
  job_remove_on_complete_count = p.1.1.1.1.1.1.1.1.1.1.0;
  job_remove_on_fail_count = p.1.1.1.1.1.1.1.1.1.1.1.0;
  worker_rate_limit_max = p.1.1.1.1.1.1.1.1.1.1.1.1.0;
  worker_rate_limit_duration_ms = p.1.1.1.1.1.1.1.1.1.1.1.1.1.0;
  job_timeout_ms = p.1.1.1.1.1.1.1.1.1.1.1.1.1.1.0;
  shutdown_timeout_ms = p.1.1.1.1.1.1.1.1.1.1.1.1.1.1.1.0;
  dead_letter_max_entries = p.1.1.1.1.1.1.1.1.1.1.1.1.1.1.1.1.0;
  enable_job_schedulers = p.1.1.1.1.1.1.1.1.1.1.1.1.1.1.1.1.1.0;
  enable_queue_events = p.1.1.1.1.1.1.1.1.1.1.1.1.1.1.1.1.1.1.0;
  enable_worker_metrics_server = p.1.1.1.1.1.1.1.1.1.1.1.1.1.1.1.1.1.1.1.0;
  worker_metrics_host = p.1.1.1.1.1.1.1.1.1.1.1.1.1.1.1.1.1.1.1.1.0;
  worker_metrics_port = p.1.1.1.1.1.1.1.1.1.1.1.1.1.1.1.1.1.1.1.1.1.0;
  maintenance_cleanup_cron = p.1.1.1.1.1.1.1.1.1.1.1.1.1.1.1.1.1.1.1.1.1.1.0;
  enable_bull_board = p.1.1.1.1.1.1.1.1.1.1.1.1.1.1.1.1.1.1.1.1.1.1.1.0;
  bull_board_username = p.1.1.1.1.1.1.1.1.1.1.1.1.1.1.1.1.1.1.1.1.1.1.1.1.0;
  bull_board_password = p.1.1.1.1.1.1.1.1.1.1.1.1.1.1.1.1.1.1.1.1.1.1.1.1.1.0;
}

unfoldable pub base_env_schema : Builders → (Text → Option Url) → ObjectSchema Variables
unfolding int_from_env optional_bool_from_env bool_from_env optional_secret redis_url_schema
    cron_schema queue_prefix_schema host_schema
base_env_schema z new_url =
    z.key (codes "NODE_ENV") (z.with_default (codes "development") (z.enum node_envs none)) (
      z.key (codes "HOST") (z.with_default (codes "0.0.0.0") (host_schema z)) (
        z.key (codes "PORT") (z.with_default (nat 3000) (int_from_env z 1 65535)) (
          z.key (codes "REDIS_URL")
            (z.with_default (codes "redis://localhost:6379") (redis_url_schema z new_url))
            (z.key (codes "LOG_LEVEL")
              (z.with_default (codes "info") (
                z.enum log_levels
                  (some (codes "must be one of: " ++ join (codes ", ") log_levels))))
              (z.key (codes "LOG_PRETTY") (optional_bool_from_env z) (
                z.key (codes "QUEUE_PREFIX") (z.with_default (codes "qwk") (queue_prefix_schema z))
                  (z.key (codes "WORKER_CONCURRENCY")
                    (z.with_default (nat 10) (int_from_env z 1 1000))
                    (z.key (codes "JOB_ATTEMPTS") (z.with_default (nat 5) (int_from_env z 1 50)) (
                      z.key (codes "JOB_BACKOFF_DELAY_MS")
                        (z.with_default (nat 2000) (int_from_env z 0 3600000))
                        (z.key (codes "JOB_REMOVE_ON_COMPLETE_COUNT")
                          (z.with_default (nat 1000) (int_from_env z 0 1000000))
                          (z.key (codes "JOB_REMOVE_ON_FAIL_COUNT")
                            (z.with_default (nat 5000) (int_from_env z 0 1000000))
                            (z.key (codes "WORKER_RATE_LIMIT_MAX")
                              (z.with_default (nat 100) (int_from_env z 1 1000000))
                              (z.key (codes "WORKER_RATE_LIMIT_DURATION_MS")
                                (z.with_default (nat 1000) (int_from_env z 1 3600000))
                                (z.key (codes "JOB_TIMEOUT_MS")
                                  (z.with_default (nat 30000) (int_from_env z 100 3600000))
                                  (z.key (codes "SHUTDOWN_TIMEOUT_MS")
                                    (z.with_default (nat 30000) (int_from_env z 1000 300000))
                                    (z.key (codes "DEAD_LETTER_MAX_ENTRIES")
                                      (z.with_default (nat 5000) (int_from_env z 1 1000000))
                                      (z.key (codes "ENABLE_JOB_SCHEDULERS") (bool_from_env z true)
                                        (z.key (codes "ENABLE_QUEUE_EVENTS") (bool_from_env z true)
                                          (z.key (codes "ENABLE_WORKER_METRICS_SERVER")
                                            (bool_from_env z true)
                                            (z.key (codes "WORKER_METRICS_HOST")
                                              (z.with_default (codes "0.0.0.0") (host_schema z))
                                              (z.key (codes "WORKER_METRICS_PORT")
                                                (z.with_default (nat 9090) (int_from_env z 1 65535))
                                                (z.key (codes "MAINTENANCE_CLEANUP_CRON")
                                                  (z.with_default (codes "0 * * * *")
                                                    (cron_schema z))
                                                  (z.key (codes "ENABLE_BULL_BOARD")
                                                    (bool_from_env z false)
                                                    (z.key (codes "BULL_BOARD_USERNAME")
                                                      (optional_secret z)
                                                      (z.key (codes "BULL_BOARD_PASSWORD")
                                                        (optional_secret z)
                                                        (z.no_keys))))))))))))))))))))))))))

-- `toLowerCase`, on the letters that the known passwords have.
abbrev lower_unit : ℕ → ℕ
lower_unit c = if leb b'A' c && leb c b'Z' then c + 32 else c

abbrev pub lower : Text → Text
lower s = map lower_unit s

abbrev pub insecure_passwords : List Text
insecure_passwords = map codes ("change-me" ∷ "changeme" ∷ "password" ∷ "admin" ∷ "secret" ∷ [])

abbrev pub min_production_password_length : ℕ
min_production_password_length = 16

abbrev pub is_production : Env → Bool
is_production env = text_eq env.node_env (codes "production")

issue : Text → Text → Issue
issue name message = record { path = name ∷ []; message = message }

required : Text → Issue
unfolding issue
required name = issue name (codes "is required when ENABLE_BULL_BOARD is true")

username_issues : Option Text → List Issue
unfolding required
username_issues none = required (codes "BULL_BOARD_USERNAME") ∷ []
username_issues (some name) = []

password_issues : Bool → Option Text → List Issue
unfolding required issue
password_issues production none = required (codes "BULL_BOARD_PASSWORD") ∷ []
password_issues false (some password) = []
password_issues true (some password) =
    if any (text_eq (lower password)) insecure_passwords
    then issue (codes "BULL_BOARD_PASSWORD")
        (codes "must not be a well-known example password when NODE_ENV=production")
      ∷ []
    else if ltb (length password) min_production_password_length
    then issue (codes "BULL_BOARD_PASSWORD")
        (codes "must be at least 16 characters when NODE_ENV=production")
      ∷ []
    else []

-- The issues that the callback of `superRefine` adds.
unfoldable pub dashboard_issues : Env → List Issue
unfolding username_issues password_issues
dashboard_issues env =
    if env.enable_bull_board
    then username_issues env.bull_board_username
      ++ password_issues (is_production env) env.bull_board_password
    else []

unfoldable pub env_schema : Builders → (Text → Option Url) → ObjectSchema Variables
unfolding base_env_schema dashboard_issues
env_schema z new_url = z.super_refine (λ p. dashboard_issues (env_of p)) (base_env_schema z new_url)

abbrev issue_key : List Text → Text
issue_key [] = codes "(root)"
issue_key (name ∷ path) = join (codes ".") (name ∷ path)

abbrev pub issue_line : Issue → Text
issue_line i = issue_key i.path ++ (codes " " ++ i.message)

unfoldable pub loaded : Parsed Variables → Completion Env
loaded (success p) = normal (env_of p)
loaded (failure issues) = throw (kit (config (map issue_line issues)))

unfoldable pub load_env : Builders → (Text → Option Url) → Source → Completion Env
unfolding env_schema loaded
load_env z new_url source = loaded (env_schema z new_url source)

-- `env.LOG_PRETTY ?? env.NODE_ENV !== 'production'`
unfoldable pub should_use_pretty_logs : Env → Bool
should_use_pretty_logs env = or_else env.log_pretty (not (is_production env))
