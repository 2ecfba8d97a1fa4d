-- ===== src/Queue/Enqueue/Prepare.antt =====
-- src/queue/enqueue.ts, up to the call of Redis: the checks, the envelope and the job options.
use queue_worker_kit.Prelude.{
  ℕ, ◌^◌, ◌-◌, Text, codes, decimal, leb, ◌++◌, ◌&&◌, [], Bool, false, Option, none, some, or_else,
  if◌then◌else◌,
}
use queue_worker_kit.Config.Defaults.{default_idempotency_ttl_ms, max_enqueue_delay_ms}
use queue_worker_kit.Values.{
  Number, nat, negative, other, undefined, kit, non_retryable, unknown_job, Completion, normal,
  throw, ◌>>=◌, ◌>>◌,
}
use queue_worker_kit.Json.{Json}
use queue_worker_kit.Jobs.Types.{
  Zod, JobDefinition, JobDefaultOptions, JobsOptions, Deduplication, JobEnvelope,
}
use queue_worker_kit.Jobs.Registry.{get_job_definition, parsed_or_throw, quoted}
use queue_worker_kit.Observability.Context.{resolve_correlation_id}
use queue_worker_kit.Queue.Registry.{Queue, QueueRegistry, get_or_throw}

pub record EnqueueOptions : Type 0 where
  pub delay : Option Number
  pub priority : Option ℕ
  pub attempts : Option ℕ
  pub correlation_id : Option Text
  pub idempotency_key : Option Text
  pub idempotency_ttl_ms : Option ℕ

-- What the host answers at the call: the ambient correlation id, a fresh one, and
-- `new Date().toISOString()`.
pub record Caller : Type 0 where
  pub ambient : Option Text
  pub fresh : Text
  pub now : Text

-- `Number.isSafeInteger(n) && 0 <= n && n <= max`
unfoldable pub is_integer_upto : ℕ → Number → Bool
is_integer_upto most (nat n) = leb n (2 ^ 53 - 1) && leb n most
is_integer_upto most (negative n) = false
is_integer_upto most (other s) = false

unfoldable pub check_delay : Option Number → Completion (Unit {0})
unfolding is_integer_upto
check_delay none = normal tt
check_delay (some delay) =
    if is_integer_upto max_enqueue_delay_ms delay
    then normal tt
    else throw (
        kit (
          non_retryable
            (codes "delay must be an integer between 0 and "
              ++ (decimal max_enqueue_delay_ms ++ codes "ms"))
            undefined))

-- `{ ...defaults, ...(value !== undefined ? { key: value } : {}) }`
abbrev pub override {ℓ} : {A : Type ℓ} → Option A → Option A → Option A
override none pinned = pinned
override (some a) pinned = some a

abbrev pub deduplication_of : Option Text → Option ℕ → Option Deduplication
deduplication_of none ttl = none
deduplication_of (some key) ttl =
    some (record { id = key; ttl = or_else ttl default_idempotency_ttl_ms })

unfoldable pub job_options : JobDefaultOptions → EnqueueOptions → JobsOptions
job_options pinned options = record {
  defaults = record pinned {
    attempts = override options.attempts pinned.attempts;
    priority = override options.priority pinned.priority;
  };
  delay = options.delay;
  deduplication = deduplication_of options.idempotency_key options.idempotency_ttl_ms;
}

unfoldable pub envelope_of : Caller → EnqueueOptions → Json → JobEnvelope
unfolding resolve_correlation_id
envelope_of caller options payload = record {
  payload = payload;
  meta = record {
    correlation_id = resolve_correlation_id options.correlation_id caller.ambient caller.fresh;
    enqueued_at = caller.now;
    idempotency_key = options.idempotency_key;
  };
}

abbrev pub defined_or_throw : Text → Option JobDefinition → Completion JobDefinition
defined_or_throw name none = throw (kit (unknown_job name))
defined_or_throw name (some definition) = normal definition

-- What the checks before Redis give.
pub record Prepared : Type 0 where
  pub definition : JobDefinition
  pub queue : Queue
  pub envelope : JobEnvelope
  pub options : JobsOptions

unfoldable pub prepare :
    Zod → QueueRegistry → Caller → Text → Json → EnqueueOptions → Completion Prepared
prepare zod queues caller name payload options = do
  definition ← defined_or_throw name (get_job_definition zod name)
  parsed ←
      parsed_or_throw (codes "Invalid payload for job " ++ quoted name) []
        (definition.schema payload)
  check_delay options.delay
  queue ← get_or_throw queues definition.queue
  normal (record {
    definition = definition;
    queue = queue;
    envelope = envelope_of caller options parsed;
    options = job_options definition.default_job_options options;
  })
