-- ===== src/Queue/Enqueue.antt =====
-- src/queue/enqueue.ts: one validated `Queue.add` per call.
pub mod Prepare
pub mod Laws
pub mod Reference
pub mod Refusal
pub mod RoundTrip
pub mod Labelling
use queue_worker_kit.Prelude.{Text, codes, ◌++◌, List, [], ◌∷◌, Option, none, some}
use queue_worker_kit.Values.{kit, plain, Completion, normal, throw}
use queue_worker_kit.Json.{Json}
use queue_worker_kit.Jobs.Types.{Zod, envelope_json}
use queue_worker_kit.Jobs.Registry.{quoted}
use queue_worker_kit.Observability.Effects.{
  inc, log, info, add_job, jobs_enqueued, Exec, emit, lift, pure, ◌>>=◌, ◌>>◌,
}
use queue_worker_kit.Queue.Registry.{QueueRegistry}
use Prepare.{EnqueueOptions, Caller, Prepared, prepare}

pub record EnqueueResult : Type 0 where
  pub id : Text
  pub name : Text
  pub queue : Text
  pub deduplication_id : Option Text

id_or_throw : Text → Option Text → Completion Text
id_or_throw queue none =
    throw (kit (plain (codes "Queue " ++ (quoted queue ++ codes " returned a job without an id"))))
id_or_throw queue (some id) = normal id

unfoldable pub submit : EnqueueOptions → Prepared → Exec EnqueueResult
unfolding id_or_throw
submit options p = do
  let stored = envelope_json p.envelope
  emit (add_job p.definition.queue p.definition.name stored p.options)
  added ← lift (p.queue.add p.definition.name stored p.options)
  id ← lift (id_or_throw p.definition.queue added)
  emit
      (inc jobs_enqueued (record { queue = p.definition.queue; job_name = some p.definition.name }))
  emit (log info (codes "job enqueued"))
  pure (record {
    id = id;
    name = p.definition.name;
    queue = p.definition.queue;
    deduplication_id = options.idempotency_key;
  })

unfoldable pub enqueue :
    Zod → QueueRegistry → Caller → Text → Json → EnqueueOptions → Exec EnqueueResult
enqueue zod queues caller name payload options = do
  prepared ← lift (prepare zod queues caller name payload options)
  submit options prepared
