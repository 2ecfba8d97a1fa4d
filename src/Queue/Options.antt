-- ===== src/Queue/Options.antt =====
-- src/queue/defaults.ts and src/queue/create-queue.ts: the options of every queue and worker.
use queue_worker_kit.Prelude.{ℕ, Text}
use queue_worker_kit.Config.Defaults.{
  job_payload_size_limit_bytes, queue_events_stream_max_len, worker_lock_duration_ms,
  worker_stalled_interval_ms, worker_max_stalled_count,
}
use queue_worker_kit.Config.Env.{Env}
use queue_worker_kit.Values.{Number}

-- `{ type: 'exponential', delay }`
pub data Backoff : Type 0 where
  exponential : Number → Backoff

pub record DefaultJobOptions : Type 0 where
  pub attempts : Number
  pub backoff : Backoff
  pub remove_on_complete : Number
  pub remove_on_fail : Number
  pub size_limit : ℕ

unfoldable pub build_default_job_options : Env → DefaultJobOptions
build_default_job_options env = record {
  attempts = env.job_attempts;
  backoff = exponential env.job_backoff_delay_ms;
  remove_on_complete = env.job_remove_on_complete_count;
  remove_on_fail = env.job_remove_on_fail_count;
  size_limit = job_payload_size_limit_bytes;
}

pub record RateLimiterOptions : Type 0 where
  pub max : Number
  pub duration : Number

unfoldable pub build_rate_limiter_options : Env → RateLimiterOptions
build_rate_limiter_options env = record {
  max = env.worker_rate_limit_max;
  duration = env.worker_rate_limit_duration_ms;
}

pub record WorkerOptions : Type 0 where
  pub prefix : Text
  pub concurrency : Number
  pub limiter : RateLimiterOptions
  pub lock_duration : ℕ
  pub stalled_interval : ℕ
  pub max_stalled_count : ℕ
  pub remove_on_complete : Number
  pub remove_on_fail : Number

unfoldable pub build_worker_options : Env → WorkerOptions
unfolding build_rate_limiter_options
build_worker_options env = record {
  prefix = env.queue_prefix;
  concurrency = env.worker_concurrency;
  limiter = build_rate_limiter_options env;
  lock_duration = worker_lock_duration_ms;
  stalled_interval = worker_stalled_interval_ms;
  max_stalled_count = worker_max_stalled_count;
  remove_on_complete = env.job_remove_on_complete_count;
  remove_on_fail = env.job_remove_on_fail_count;
}

-- What `createQueue` hands to BullMQ's constructor, besides the connection.
pub record QueueOptions : Type 0 where
  pub prefix : Text
  pub default_job_options : DefaultJobOptions
  pub events_max_len : ℕ

unfoldable pub create_queue_options : Env → QueueOptions
unfolding build_default_job_options
create_queue_options env = record {
  prefix = env.queue_prefix;
  default_job_options = build_default_job_options env;
  events_max_len = queue_events_stream_max_len;
}
