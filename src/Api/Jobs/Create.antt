-- ===== src/Api/Jobs/Create.antt =====
-- The three POST endpoints of src/api/routes/jobs.routes.ts. A body has passed its schema.
use queue_worker_kit.Prelude.{ℕ, Text, codes}
use queue_worker_kit.Json.{obj, Fields}
use queue_worker_kit.Jobs.Types.{Zod}
use queue_worker_kit.Observability.Effects.{Exec, pure, ◌>>=◌}
use queue_worker_kit.Queue.Registry.{QueueRegistry}
use queue_worker_kit.Queue.Enqueue.{EnqueueResult, enqueue}
use queue_worker_kit.Queue.Enqueue.Prepare.{Caller}
use queue_worker_kit.Api.Jobs.{split_enqueue_options}

-- The status and the data of an answer.
pub record Accepted : Type 0 where
  pub status_code : ℕ
  pub result : EnqueueResult

unfoldable pub post_job : Zod → QueueRegistry → Caller → Text → Fields → Exec Accepted
post_job zod queues caller name body = do
  let (options, payload) = split_enqueue_options body
  result ← enqueue zod queues caller name (obj payload) options
  pure (record { status_code = 202; result = result })

abbrev pub post_email : Zod → QueueRegistry → Caller → Fields → Exec Accepted
post_email zod queues caller body = post_job zod queues caller (codes "email.send") body

abbrev pub post_report : Zod → QueueRegistry → Caller → Fields → Exec Accepted
post_report zod queues caller body = post_job zod queues caller (codes "report.generate") body

abbrev pub post_cleanup : Zod → QueueRegistry → Caller → Fields → Exec Accepted
post_cleanup zod queues caller body = post_job zod queues caller (codes "maintenance.cleanup") body
