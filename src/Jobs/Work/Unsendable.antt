-- ===== src/Jobs/Work/Unsendable.antt =====
-- A message that can never be sent, from the producer to the dead-letter queue: src/queue/enqueue.ts,
-- src/jobs/registry.ts, src/jobs/definitions/send-email.job.ts, src/worker/processor.ts,
-- src/worker/create-worker.ts and src/worker/dead-letter.ts.
use queue_worker_kit.Prelude.{
  ℕ, ◌-◌, drop, length, text_eq, List, ◌∷◌, ◌++◌, false, Option, some, ◌≡◌, refl,
}
use queue_worker_kit.Config.Defaults.{email}
use queue_worker_kit.Values.{kit, kit_non_retryable, normal, throw, Host}
use queue_worker_kit.Errors.{classify_error, non_retryable_class}
use queue_worker_kit.Errors.Laws.{NamesReadable, classify_error-kit}
use queue_worker_kit.Json.{Json}
use queue_worker_kit.Observability.Effects.{Exec}
use queue_worker_kit.Utils.Sleep.{Signal}
use queue_worker_kit.Jobs.Types.{Zod, ZodLaws, IsValidMeta, success, envelope_json}
use queue_worker_kit.Jobs.Processors.Email.{
  SendEmailPayload, is_known, unknown_template, send, process_email,
}
use queue_worker_kit.Jobs.Registry.{Invoked, register}
use queue_worker_kit.Jobs.Names.{email_send, name_text, job_definition, payload_json}
use queue_worker_kit.Jobs.Work.{
  Work, as_work, settlement, JobWorld, run_job, process, program_registry,
}
use queue_worker_kit.Jobs.Work.Laws.{entry_of, invoke-enqueued_payload}
use queue_worker_kit.Queue.Registry.{QueueRegistry}
use queue_worker_kit.Queue.Enqueue.Prepare.{Caller, EnqueueOptions, Prepared}
use queue_worker_kit.Queue.Enqueue.Laws.{IsPrepared}
use queue_worker_kit.Worker.Race.{AttemptEvent, settles}
use queue_worker_kit.Worker.Race.Laws.{is_aborted}
use queue_worker_kit.Worker.Processor.{Job, attempt_of, process_job}
use queue_worker_kit.Worker.Processor.Laws.{tally}
use queue_worker_kit.Worker.DeadLetter.{DeadLetterRecord, DeadLetterQueue, record_id}
use queue_worker_kit.Worker.DeadLetter.Laws.{Entries, added, IsWorking}
use queue_worker_kit.Worker.Create.{dead_letter_input, failed, on_event}
use queue_worker_kit.Worker.Create.Failure.{IsFiled, IsFailedFor, process_job-dead_letters}

run_job_unsendable :
    (world : JobWorld) (message : SendEmailPayload)
    → is_known message.template ≡ false
    → run_job world email_send message ≡ some (throw (kit (unknown_template message)))
unfolding run_job process_email send
run_job_unsendable world message h = rw h refl

unsendable-non_retryable :
    (host : Host) (message : SendEmailPayload)
    → classify_error host (kit (unknown_template message)) ≡ normal non_retryable_class
unfolding kit_non_retryable
unsendable-non_retryable host message = classify_error-kit host (unknown_template message)

module _ {S : Type 0} {zod : Zod} (laws : ZodLaws zod) (world : JobWorld)
    (message : SendEmailPayload) (unknown : is_known message.template ≡ false)
    (parses : (job_definition zod email_send).schema (payload_json email_send message)
      ≡ success (payload_json email_send message))
    (queues : QueueRegistry) (caller : Caller) (options : EnqueueOptions) (p : Prepared)
    (accepted : IsPrepared zod queues caller
      (name_text email_send)
      (payload_json email_send message)
      options
      p)
    (valid : IsValidMeta zod p.envelope.meta) (host : Host) (readable : NamesReadable host)
    (queue : DeadLetterQueue S) (entries : S → Entries) (w : IsWorking queue entries)
    (max_entries : ℕ) where
  -- A message with a template that the provider does not know is accepted by the producer, and stored
  -- with valid metadata. In an attempt, the promise that the invocation of the stored job gives
  -- settles first, before any abort. Then the attempt fails with the error for that template and is
  -- not counted as retrying, however many attempts are left. Once BullMQ reports the job as failed
  -- for good, on a dead-letter queue that answers, a record is added (unchanged if its id was
  -- there) that names the job, carries the whole envelope that the producer made, is filed under
  -- its correlation id and gives the error as its reason; the newest `max_entries` are left.
  pub unsendable-dead_letters :
      (default_timeout_ms : ℕ) (job ended : Job) (signal : Option Signal)
      (events later : List AttemptEvent) (duration now : ℕ) (r : Exec Json) (s : S)
      → job.name ≡ name_text email_send
      → job.stored ≡ envelope_json p.envelope
      → is_aborted signal ≡ false
      → ((i : Invoked Work)
          → (register zod (job_definition zod email_send) (process world email_send)).invoke
              job.stored
              (λ meta. attempt_of job)
            ≡ normal i
          → events ≡ settlement i.work ++ later)
      → process_job host
          (program_registry zod world)
          email
          default_timeout_ms
          job
          signal
          events
          duration
        ≡ some r
      → IsFailedFor job ended
      → let v = kit (unknown_template message) in
        (r.0 ≡ throw v)
        × (tally r.1).retrying ≡ 0
        × ((rec : DeadLetterRecord) × IsFiled host email p.envelope job v rec
            × let all = added (record_id (dead_letter_input zod email ended v)) rec (entries s) in
              entries (on_event zod host queue max_entries email now (failed (some ended) v) s).0
              ≡ drop (length all - max_entries) all)
  unfolding text_eq
  unsendable-dead_letters default_timeout_ms job ended signal events later duration now r s name
        stored live promise attempt moved =
      let v = kit (unknown_template message) in
      let entry = register zod (job_definition zod email_send) (process world email_send) in
      let i : Invoked Work = record {
        meta = p.envelope.meta;
        work = as_work email_send (run_job world email_send message);
      } in
      let called : entry.invoke job.stored (λ meta. attempt_of job) ≡ normal i = rw stored (
        invoke-enqueued_payload laws world email_send message parses queues caller options p
          accepted valid (λ meta. attempt_of job)) in
      let first : events ≡ settles (throw v) ∷ later =
        rw (run_job_unsendable world message unknown) at (promise i called) in
      process_job-dead_letters zod laws host readable (program_registry zod world) queue entries w
        max_entries email refl entry default_timeout_ms p.envelope job ended signal later duration
        now v i r s (rw name (entry_of zod world email_send)) valid stored called live
        (unsendable-non_retryable host message) (rw first at attempt) moved
