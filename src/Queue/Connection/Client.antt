-- ===== src/Queue/Connection/Client.antt =====
-- `createRedisOptions` and the listeners of `createRedisConnection` in src/queue/connection.ts.
use queue_worker_kit.Prelude.{ℕ, Text, codes, ◌++◌, Bool, true, false, Option, none, some}
use queue_worker_kit.Config.Defaults.{redis_connect_timeout_ms}
use queue_worker_kit.Config.Env.{Env}
use queue_worker_kit.Values.{Value, Host}
use queue_worker_kit.Utils.SerializeError.{SerializedError, serialize_error}
use queue_worker_kit.Observability.Effects.{Level, info, warn}
use queue_worker_kit.Queue.Connection.{retry_strategy}

pub data ConnectionRole : Type 0 where
  producer worker : ConnectionRole

abbrev pub role_text : ConnectionRole → Text
role_text producer = codes "producer"
role_text worker = codes "worker"

abbrev is_worker : ConnectionRole → Bool
is_worker producer = false
is_worker worker = true

-- What ioredis is given, the URL left out; `below` is the host's random choice.
pub record RedisOptions : Type 0 where
  pub max_retries_per_request : Option ℕ
  pub enable_offline_queue : Bool
  pub connect_timeout : ℕ
  pub retry : ℕ → ℕ
  pub keep_alive : ℕ
  pub connection_name : Text

unfoldable pub create_redis_options : (ℕ → ℕ) → Env → ConnectionRole → RedisOptions
unfolding retry_strategy
create_redis_options below env role = record {
  max_retries_per_request = none;
  enable_offline_queue = is_worker role;
  connect_timeout = redis_connect_timeout_ms;
  retry = retry_strategy below;
  keep_alive = 30_000;
  connection_name = env.queue_prefix ++ (codes ":" ++ role_text role);
}

pub data ClientEvent : Type 0 where
  client_error : Value → ClientEvent
  client_ready client_close client_end : ClientEvent
  client_reconnecting : ℕ → ClientEvent

-- A log record, with what it holds of the event: of an error, its projection alone.
pub record ClientLog : Type 0 where
  pub level : Level
  pub message : Text
  pub err : Option SerializedError
  pub delay_ms : Option ℕ

abbrev plainly : Level → Text → ClientLog
plainly level message = record { level = level; message = message; err = none; delay_ms = none }

unfoldable pub on_client_event : Host → ClientEvent → ClientLog
on_client_event host (client_error e) = record (plainly warn (codes "redis error")) {
  err = some (serialize_error host e 0);
}
on_client_event host client_ready = plainly info (codes "redis ready")
on_client_event host (client_reconnecting delay) =
    record (plainly warn (codes "redis reconnecting")) { delay_ms = some delay }
on_client_event host client_close = plainly warn (codes "redis connection closed")
on_client_event host client_end = plainly info (codes "redis connection ended")
