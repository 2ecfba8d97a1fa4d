-- ===== src/Worker/Labelling.antt =====
-- The labels of all that is counted from the call of `enqueue` (src/queue/enqueue.ts) through an
-- attempt (src/worker/processor.ts) to the worker's listeners (src/worker/create-worker.ts) and the
-- dead-letter writer (src/worker/dead-letter.ts), against the metrics of src/observability/metrics.ts.
use queue_worker_kit.Prelude.{
  ℕ, ◌≡◌, refl, Text, List, ◌++◌, Bool-cases, Option, none, some, inl, inr,
}
use queue_worker_kit.Values.{Host}
use queue_worker_kit.Json.{Json}
use queue_worker_kit.Jobs.Types.{Zod}
use queue_worker_kit.Jobs.Registry.{JobRegistry}
use queue_worker_kit.Observability.Effects.{Exec}
use queue_worker_kit.Observability.Labels.{is_labelled, AreLabelled, append-AreLabelled}
use queue_worker_kit.Queue.Registry.{QueueRegistry}
use queue_worker_kit.Queue.Enqueue.{enqueue}
use queue_worker_kit.Queue.Enqueue.Prepare.{EnqueueOptions, Caller}
use queue_worker_kit.Queue.Enqueue.Labelling.{enqueue-AreLabelled}
use queue_worker_kit.Utils.Sleep.{Signal}
use queue_worker_kit.Worker.Race.{AttemptEvent}
use queue_worker_kit.Worker.Processor.{Job, process_job}
use queue_worker_kit.Worker.Processor.Labelling.{process_job-AreLabelled}
use queue_worker_kit.Worker.DeadLetter.{DeadLetterQueue}
use queue_worker_kit.Worker.DeadLetter.Labelling.{record_failure-AreLabelled}
use queue_worker_kit.Worker.Create.{
  dead_letter_input, is_terminal_failure, WorkerEvent, ready, closing, closed, worker_error,
  stalled, failed, on_event,
}

module _ {Work S : Type 0} (zod : Zod) (host : Host) (registry : JobRegistry Work)
    (queue : DeadLetterQueue S) (max_entries : ℕ) (queue_name : Text) where
  on_event-AreLabelled :
      (now : ℕ) (e : WorkerEvent) (s : S)
      → AreLabelled (on_event zod host queue max_entries queue_name now e s).1
  unfolding on_event is_labelled
  on_event-AreLabelled now ready s = refl
  on_event-AreLabelled now (worker_error error) s = refl
  on_event-AreLabelled now (stalled id) s = refl
  on_event-AreLabelled now closing s = refl
  on_event-AreLabelled now closed s = refl
  on_event-AreLabelled now (failed none error) s = refl
  on_event-AreLabelled now (failed (some job) error) s =
      elim (Bool-cases (is_terminal_failure job)) [
        | inl y ↦ rw y (
            record_failure-AreLabelled queue host max_entries now
              (dead_letter_input zod queue_name job error) s)
        | inr n ↦ rw n refl
      ]

  -- Whatever is enqueued, whatever comes of an attempt, and whatever event the worker then has, on a
  -- dead-letter queue that may fail at every call: each counter that is incremented is given the
  -- labels that it was created with, the job's name exactly where it is one of them, and each
  -- duration is observed under a job's name.
  pub effects-AreLabelled :
      (queues : QueueRegistry) (caller : Caller) (name : Text) (payload : Json)
      (options : EnqueueOptions) (default_timeout_ms : ℕ) (job : Job) (signal : Option Signal)
      (events : List AttemptEvent) (duration : ℕ) (r : Exec Json) (now : ℕ) (e : WorkerEvent)
      (s : S)
      → process_job host registry queue_name default_timeout_ms job signal events duration ≡ some r
      → AreLabelled (
          (enqueue zod queues caller name payload options).1
          ++ (r.1 ++ (on_event zod host queue max_entries queue_name now e s).1))
  effects-AreLabelled queues caller name payload options default_timeout_ms job signal events
        duration r now e s h =
      append-AreLabelled _ _ (enqueue-AreLabelled zod queues caller name payload options) (
        append-AreLabelled _ _
          (process_job-AreLabelled host registry queue_name default_timeout_ms job signal events
            duration r h)
          (on_event-AreLabelled now e s))
