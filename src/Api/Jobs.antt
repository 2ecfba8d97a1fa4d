-- ===== src/Api/Jobs.antt =====
-- The endpoints of src/api/routes/jobs.routes.ts. A request body has passed its schema, which is
-- zod's; `Queue.getJob` and `Job.getState` are BullMQ's, and answer in the order of the calls.
pub mod Laws
pub mod Create
pub mod EndToEnd
pub mod Refusal
pub mod Schemas
use queue_worker_kit.Prelude.{
  ℕ, Text, codes, text_eq, any, ltb, ◌||◌, ◌&&◌, ◌++◌, not, List, [], ◌∷◌, Bool, true, false,
  Option, none, some, or_else, is_some, if◌then◌else◌,
}
use queue_worker_kit.Values.{Value, Number, nat, Completion, normal, throw, ◌>>=◌}
use queue_worker_kit.Json.{Json, null, str, num, obj, Fields, end, field, property}
use queue_worker_kit.Jobs.Registry.{quoted}
use queue_worker_kit.Queue.Enqueue.Prepare.{EnqueueOptions}
use queue_worker_kit.Api.Errors.{not_found}

-- `const { correlationId, delay, idempotencyKey, ...payload } = body`
unfoldable pub is_option_key : Text → Bool
is_option_key key =
    text_eq key (codes "correlationId")
    || (text_eq key (codes "delay") || text_eq key (codes "idempotencyKey"))

unfoldable pub payload_of : Fields → Fields
unfolding is_option_key
payload_of end = end
payload_of (field key v fs) =
    let rest = payload_of fs in if is_option_key key then rest else field key v rest

text_of : Option Json → Option Text
text_of (some (str s)) = some s
text_of o = none

number_of : Option Json → Option Number
number_of (some (num n)) = some n
number_of o = none

unfoldable pub split_enqueue_options : Fields → EnqueueOptions × Fields
unfolding text_of number_of
split_enqueue_options body = (
  record {
    delay = number_of (property (codes "delay") (obj body));
    priority = none;
    attempts = none;
    correlation_id = text_of (property (codes "correlationId") (obj body));
    idempotency_key = text_of (property (codes "idempotencyKey") (obj body));
    idempotency_ttl_ms = none;
  },
  payload_of body,
)

-- What the route reads of a BullMQ job.
pub record JobSnapshot : Type 0 where
  pub id : Option Text
  pub name : Text
  pub progress : Json
  pub attempts_made : ℕ
  pub stored : Json
  pub timestamp : ℕ
  pub processed_on : Option ℕ
  pub finished_on : Option ℕ
  pub failed_reason : Option Text
  pub return_value : Json

-- `JobStatusResponse`; a time is in milliseconds.
pub record JobStatusResponse : Type 0 where
  pub id : Text
  pub name : Text
  pub queue : Text
  pub state : Text
  pub progress : Json
  pub attempts_made : ℕ
  pub correlation_id : Option Text
  pub created_at : Option ℕ
  pub processed_at : Option ℕ
  pub finished_at : Option ℕ
  pub failed_reason : Option Text
  pub result : Json

-- The three round trips of one request.
pub record QueueReads : Type 0 where
  pub get_job : Completion (Option JobSnapshot)
  pub get_state : Completion Text
  pub get_job_again : Completion (Option JobSnapshot)

correlation_id_in : Json → Option Text
unfolding text_of
correlation_id_in stored = elim (property (codes "meta") stored) [
  | none ↦ none
  | some meta ↦ text_of (property (codes "correlationId") meta)
]

unfoldable pub is_settled : Text → Bool
is_settled state = text_eq state (codes "completed") || text_eq state (codes "failed")

unfoldable pub status_of_job : Text → Text → Text → JobSnapshot → JobStatusResponse
unfolding correlation_id_in
status_of_job queue_name id state job = record {
  id = or_else job.id id;
  name = job.name;
  queue = queue_name;
  state = state;
  progress = job.progress;
  attempts_made = job.attempts_made;
  correlation_id = correlation_id_in job.stored;
  created_at = if ltb 0 job.timestamp then some job.timestamp else none;
  processed_at = job.processed_on;
  finished_at = job.finished_on;
  failed_reason = if text_eq state (codes "failed") then job.failed_reason else none;
  result = if text_eq state (codes "completed") then job.return_value else null;
}

-- The second read, where the first is older than the state.
unfoldable pub needs_reread : Text → JobSnapshot → Bool
unfolding is_settled
needs_reread state job = is_settled state && not (is_some job.finished_on)

unfoldable pub settled_snapshot : QueueReads → Text → JobSnapshot → Completion JobSnapshot
settled_snapshot reads state job =
    if needs_reread state job
    then (do again ← reads.get_job_again; normal (or_else again job))
    else normal job

abbrev pub found_or_throw : Text → Text → Option JobSnapshot → Completion JobSnapshot
found_or_throw queue_name id none = throw (
    not_found
      (codes "Job " ++ (quoted id ++ (codes " was not found in queue " ++ quoted queue_name))))
found_or_throw queue_name id (some job) = normal job

-- `readable.has(queueName) ? queues.get(queueName) : undefined`
unfoldable pub readable_queue : List Text → (Text → Option QueueReads) → Text → Option QueueReads
readable_queue readable queues name = if any (text_eq name) readable then queues name else none

abbrev pub queue_or_throw : Text → Option QueueReads → Completion QueueReads
queue_or_throw name none = throw (not_found (codes "Unknown queue " ++ quoted name))
queue_or_throw name (some reads) = normal reads

unfoldable pub job_status :
    List Text → (Text → Option QueueReads) → Text → Text → Completion JobStatusResponse
job_status readable queues queue_name id = do
  reads ← queue_or_throw queue_name (readable_queue readable queues queue_name)
  found ← reads.get_job
  job ← found_or_throw queue_name id found
  state ← reads.get_state
  latest ← settled_snapshot reads state job
  normal (status_of_job queue_name id state latest)
