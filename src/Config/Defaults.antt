-- ===== src/Config/Defaults.antt =====
-- src/config/defaults.ts: the operational constants that the modelled code reads.
use queue_worker_kit.Prelude.{ℕ, ◌*◌, Text, codes, List, [], ◌∷◌}

-- The values of `QUEUE_NAMES`.
abbrev pub email : Text
email = codes "email"

abbrev pub reports : Text
reports = codes "reports"

abbrev pub maintenance : Text
maintenance = codes "maintenance"

abbrev pub dead_letter : Text
dead_letter = codes "dead-letter"

abbrev pub all_queue_names : List Text
all_queue_names = email ∷ reports ∷ maintenance ∷ dead_letter ∷ []

abbrev pub worker_queue_names : List Text
worker_queue_names = email ∷ reports ∷ maintenance ∷ []

abbrev pub readiness_timeout_ms : ℕ
readiness_timeout_ms = 1_000

abbrev pub redis_connect_timeout_ms : ℕ
redis_connect_timeout_ms = 10_000

abbrev pub redis_reconnect_min_delay_ms : ℕ
redis_reconnect_min_delay_ms = 200

abbrev pub redis_reconnect_max_delay_ms : ℕ
redis_reconnect_max_delay_ms = 5_000

abbrev pub worker_lock_duration_ms : ℕ
worker_lock_duration_ms = 30_000

abbrev pub worker_stalled_interval_ms : ℕ
worker_stalled_interval_ms = 30_000

abbrev pub worker_max_stalled_count : ℕ
worker_max_stalled_count = 1

abbrev pub error_stack_max_lines : ℕ
error_stack_max_lines = 12

abbrev pub dead_letter_reason_max_chars : ℕ
dead_letter_reason_max_chars = 2_000

abbrev pub error_cause_max_depth : ℕ
error_cause_max_depth = 3

abbrev pub shutdown_exit_grace_ms : ℕ
shutdown_exit_grace_ms = 250

abbrev pub dead_letter_drain_timeout_ms : ℕ
dead_letter_drain_timeout_ms = 5_000

abbrev pub maintenance_scheduler_id : Text
maintenance_scheduler_id = codes "maintenance-cleanup"

abbrev pub maintenance_cleanup_lookback_ms : ℕ
maintenance_cleanup_lookback_ms = 30 * 24 * 60 * 60 * 1_000

abbrev pub default_idempotency_ttl_ms : ℕ
default_idempotency_ttl_ms = 24 * 60 * 60 * 1_000

abbrev pub max_enqueue_delay_ms : ℕ
max_enqueue_delay_ms = 7 * 24 * 60 * 60 * 1_000

abbrev pub job_payload_size_limit_bytes : ℕ
job_payload_size_limit_bytes = 16 * 1024

abbrev pub queue_events_stream_max_len : ℕ
queue_events_stream_max_len = 10_000

abbrev pub http_body_limit_bytes : ℕ
http_body_limit_bytes = 64 * 1024

abbrev pub http_request_timeout_ms : ℕ
http_request_timeout_ms = 15_000
