-- ===== src/Queue/Connection.antt =====
-- src/queue/connection.ts: reconnecting, what is logged of a URL, the wait for Redis and the probe.
-- `new URL` and `Math.random` are the host's.
pub mod Laws
pub mod Client
use queue_worker_kit.Prelude.{
  ℕ, ◌+◌, ◌*◌, ◌-◌, ◌/◌, ◌^◌, min, Text, codes, ◌++◌, ◌||◌, not, List, [], ◌∷◌, Bool, true, false,
  Option, none, some, if◌then◌else◌,
}
use queue_worker_kit.Config.Defaults.{redis_reconnect_min_delay_ms, redis_reconnect_max_delay_ms}
use queue_worker_kit.Values.{Completion, normal, throw}

-- The parts of a parsed URL.
pub record Url : Type 0 where
  pub protocol : Text
  pub username : Text
  pub password : Text
  pub hostname : Text
  pub port : Text
  pub pathname : Text

abbrev is_empty : Text → Bool
is_empty [] = true
is_empty (c ∷ s) = false

abbrev pub has_credentials : Url → Bool
has_credentials url = not (is_empty url.username) || not (is_empty url.password)

abbrev port_part : Text → Text
port_part [] = []
port_part (c ∷ s) = codes ":" ++ (c ∷ s)

-- A URL that does not parse is absent.
unfoldable pub redact_redis_url : Option Url → Text
redact_redis_url none = codes "[unparseable redis url]"
redact_redis_url (some url) =
    url.protocol
    ++ (codes "//"
        ++ ((if has_credentials url then codes "***@" else [])
            ++ (url.hostname ++ (port_part url.port ++ url.pathname))))

-- The backoff before the jitter, at the `times`-th attempt; ioredis counts from 1.
unfoldable pub backoff : ℕ → ℕ
backoff times = min (redis_reconnect_min_delay_ms * 2 ^ (times - 1)) redis_reconnect_max_delay_ms

-- `random k` is `Math.floor(Math.random() * k)`; half of a backoff is whole.
unfoldable pub retry_strategy : (ℕ → ℕ) → ℕ → ℕ
unfolding backoff
retry_strategy random times = backoff times / 2 + random (backoff times / 2)

-- One wait for `ready`: what it resolved to, and whether its timer and its listener are there.
pub record ReadyWait : Type 0 where
  pub resolved : Option Bool
  pub timer : Bool
  pub listener : Bool

pub data ReadyEvent : Type 0 where
  becomes_ready times_out : ReadyEvent

unfoldable pub start_wait : Bool → ReadyWait
start_wait ready =
    if ready
    then record { resolved = some true; timer = false; listener = false }
    else record { resolved = none; timer = true; listener = true }

-- `finish`: only the first call has an effect.
abbrev finish : Option Bool → ReadyWait → Bool → ReadyWait
finish none w ready = record { resolved = some ready; timer = false; listener = false }
finish (some r) w ready = w

unfoldable pub on_ready_event : ReadyWait → ReadyEvent → ReadyWait
on_ready_event w becomes_ready = if w.listener then finish w.resolved w true else w
on_ready_event w times_out = if w.timer then finish w.resolved w false else w

unfoldable pub wait_until_redis_ready : ReadyWait → List ReadyEvent → ReadyWait
wait_until_redis_ready w [] = w
wait_until_redis_ready w (e ∷ es) = wait_until_redis_ready (on_ready_event w e) es

-- What reaches the probe's race first: the answer of `client.ping()`, or its deadline.
pub data PingEvent : Type 0 where
  answers : Completion (Unit {0}) → PingEvent
  probe_deadline : PingEvent

unfoldable pub ping_redis : List PingEvent → Option Bool
ping_redis [] = none
ping_redis (answers (normal u) ∷ es) = some true
ping_redis (answers (throw v) ∷ es) = some false
ping_redis (probe_deadline ∷ es) = some false

-- `closing ??= …`: the client is asked to quit once, and cut off if it cannot.
pub record RedisHandle : Type 0 where
  pub closing : Bool
  pub quits : ℕ
  pub disconnects : ℕ

abbrev quit_failed : Completion (Unit {0}) → ℕ
quit_failed (normal u) = 0
quit_failed (throw v) = 1

unfoldable pub close_redis : Completion (Unit {0}) → RedisHandle → RedisHandle
close_redis quit h = if h.closing then h else record {
  closing = true;
  quits = h.quits + 1;
  disconnects = h.disconnects + quit_failed quit;
}
