-- ===== src/Observability/Logger.antt =====
-- What src/observability/logger.ts hands to pino. pino, and the host's resolution of pino-pretty, are
-- not code of this repository.
use queue_worker_kit.Prelude.{
  Text, codes, List, [], ◌∷◌, map, Bool, true, false, ◌&&◌, Option, some, none, if◌then◌else◌, ◌≡◌,
  refl,
}
use queue_worker_kit.Values.{Value, Completion, normal, throw}
use queue_worker_kit.Config.Env.{Env, is_production, should_use_pretty_logs}

abbrev pub redact_paths : List Text
redact_paths = map codes (
    "req.headers.authorization" ∷ "req.headers.cookie" ∷ "req.headers[\"set-cookie\"]"
    ∷ "res.headers[\"set-cookie\"]" ∷ "password" ∷ "*.password" ∷ "payload.password"
    ∷ "data.payload.password" ∷ "REDIS_URL" ∷ "redisUrl" ∷ "connection.password" ∷ "err.command"
    ∷ "*.command.args" ∷ "command.args" ∷ [])

-- The transport of pino-pretty.
pub record Transport : Type 0 where
  pub target : Text
  pub colorize : Bool
  pub translate_time : Text
  pub ignore : Text

-- What pino is given. `format_level` is the formatter of a level's label, as the record's fields.
pub record LoggerOptions : Type 0 where
  pub level : Text
  pub name : Text
  pub redacted : List Text
  pub censor : Text
  pub format_level : Text → List (Text × Text)
  pub transport : Option Transport

-- `resolve` is how the host's resolution of pino-pretty ends.
abbrev pub is_pretty_available : Completion Text → Bool
is_pretty_available (normal path) = true
is_pretty_available (throw v) = false

abbrev pretty_transport : Transport
pretty_transport = record {
  target = codes "pino-pretty";
  colorize = true;
  translate_time = codes "HH:MM:ss.l";
  ignore = codes "pid,hostname";
}

unfoldable pub create_logger : Completion Text → Text → Text → Bool → LoggerOptions
create_logger resolve level name pretty = record {
  level = level;
  name = name;
  redacted = redact_paths;
  censor = codes "[redacted]";
  format_level = λ label. (codes "level", label) ∷ [];
  transport = if pretty && is_pretty_available resolve then some pretty_transport else none;
}

unfoldable pub create_logger_from_env : Completion Text → Env → Text → LoggerOptions
unfolding create_logger should_use_pretty_logs
create_logger_from_env resolve env name =
    create_logger resolve env.log_level name (should_use_pretty_logs env)

-- In production, logs are pretty only if the environment asks for it: a variable that is not set
-- leaves the transport out, although the module may be there.
pub create_logger_from_env_production :
    (resolve : Completion Text) (env : Env) (name : Text)
    → env.log_pretty ≡ none
    → is_production env ≡ true
    → (create_logger_from_env resolve env name).transport ≡ none
unfolding create_logger_from_env create_logger should_use_pretty_logs
create_logger_from_env_production resolve env name unset production = rw (unset, production) refl

-- A host without pino-pretty gets plain JSON, whatever the environment asks for.
pub create_logger-unavailable :
    (v : Value) (level name : Text) (pretty : Bool)
    → (create_logger (throw v) level name pretty).transport ≡ none
unfolding create_logger
create_logger-unavailable v level name true = refl
create_logger-unavailable v level name false = refl
