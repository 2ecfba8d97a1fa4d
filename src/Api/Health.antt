-- ===== src/Api/Health.antt =====
-- The health endpoints: src/api/routes/health.routes.ts, and the one of src/worker/metrics-server.ts.
use queue_worker_kit.Prelude.{ℕ, List, Bool, true, false, Option, none, some, if◌then◌else◌}
use queue_worker_kit.Queue.Connection.{PingEvent, ping_redis}

pub data HealthStatus : Type 0 where
  ok not_ready shutting_down : HealthStatus

-- `redis` is the check, where the answer has one.
pub record HealthResponse : Type 0 where
  pub status_code : ℕ
  pub status : HealthStatus
  pub redis : Option Bool

-- The API's liveness.
abbrev pub live : HealthResponse
live = record { status_code = 200; status = ok; redis = none }

abbrev pub unready : HealthResponse
unready = record { status_code = 503; status = not_ready; redis = some false }

abbrev pub of_ping : Option Bool → Option HealthResponse
of_ping none = none
of_ping (some false) = some unready
of_ping (some true) = some (record { status_code = 200; status = ok; redis = some true })

-- The API's readiness; no answer while the ping is under way.
unfoldable pub ready : Bool → List PingEvent → Option HealthResponse
unfolding ping_redis
ready shutting events = if shutting then some unready else of_ping (ping_redis events)

-- The worker's liveness.
unfoldable pub worker_live : Bool → HealthResponse
worker_live shutting =
    if shutting then record { status_code = 503; status = shutting_down; redis = none } else live
