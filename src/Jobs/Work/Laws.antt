-- ===== src/Jobs/Work/Laws.antt =====
-- A typed payload reaches its processor as it was, and the processor's result reaches BullMQ
-- (src/queue/enqueue.ts, src/jobs/registry.ts, src/worker/processor.ts and the processors).
use queue_worker_kit.Prelude.{
  ℕ, Text, text_eq, List, ◌∷◌, ◌++◌, false, Option, some, some_unique, ◌≡◌, refl, sym, ap, ◌∙◌,
  subst,
}
use queue_worker_kit.Values.{Completion, normal, Host}
use queue_worker_kit.Json.{Json, property, get_field}
use queue_worker_kit.Jobs.Types.{
  Zod, ZodLaws, JobDefinition, success, success-injective, IsValidMeta, JobEnvelope, JobMeta,
  envelope_json,
}
use queue_worker_kit.Jobs.Processors.Report.{Format, csv, json}
use queue_worker_kit.Jobs.Registry.{Invoked, register, registry_get, parsed_or_throw}
use queue_worker_kit.Jobs.Names.{
  JobName, email_send, report_generate, maintenance_cleanup, name_text, job_definition, ResultOf,
  PayloadOf, format_text, payload_json, result_json,
}
use queue_worker_kit.Jobs.Names.Laws.{get_job_definition-name_text}
use queue_worker_kit.Jobs.Work.{
  Work, settlement, format_of, read_payload, map_completion, as_work, JobWorld, run_job, process,
  program_registry,
}
use queue_worker_kit.Errors.Laws.{NamesReadable}
use queue_worker_kit.Observability.Effects.{Exec}
use queue_worker_kit.Utils.Sleep.{Signal}
use queue_worker_kit.Worker.Race.{AttemptEvent, settles}
use queue_worker_kit.Worker.Race.Laws.{is_aborted, race_with_abort-settles}
use queue_worker_kit.Worker.Processor.{Job, attempt_of, process_job}
use queue_worker_kit.Worker.Processor.Outcome.{FollowsRace, process_job-FollowsRace}
use queue_worker_kit.Queue.Registry.{QueueRegistry}
use queue_worker_kit.Queue.Enqueue.Prepare.{Caller, EnqueueOptions, Prepared}
use queue_worker_kit.Queue.Enqueue.Laws.{IsPrepared}
use queue_worker_kit.Queue.Enqueue.RoundTrip.{entries}

format_of-format_text : (f : Format) → format_of (format_text f) ≡ f
unfolding text_eq
format_of-format_text csv = refl
format_of-format_text json = refl

-- What a processor reads of a payload that was written as JSON is that payload.
pub read_payload-payload_json :
    (n : JobName) (p : PayloadOf n) → read_payload n (payload_json n p) ≡ p
unfolding read_payload payload_json property get_field text_eq
read_payload-payload_json email_send p = refl
read_payload-payload_json report_generate p =
    ap (λ (f : Format). record p { format = f }) (format_of-format_text p.format)
read_payload-payload_json maintenance_cleanup p = refl

module _ (zod : Zod) (world : JobWorld) where
  pub entry_of :
      (n : JobName)
      → registry_get (program_registry zod world) (name_text n)
        ≡ some (register zod (job_definition zod n) (process world n))
  unfolding program_registry
  entry_of email_send = (entries zod _).0
  entry_of report_generate = (entries zod _).1
  entry_of maintenance_cleanup = (entries zod _).2

  pub invoke-typed :
      (laws : ZodLaws zod) (n : JobName) (p : PayloadOf n) (e : JobEnvelope) (attempt : JobMeta → ℕ)
      → IsValidMeta zod e.meta
      → e.payload ≡ payload_json n p
      → (job_definition zod n).schema (payload_json n p) ≡ success (payload_json n p)
      → (register zod (job_definition zod n) (process world n)).invoke (envelope_json e) attempt
        ≡ normal (record { meta = e.meta; work = as_work n (run_job world n p) })
  unfolding register parsed_or_throw process
  invoke-typed laws n p e attempt valid payload parses =
      rw (laws.envelope_accepts e valid) (rw (payload, parses, read_payload-payload_json n p) refl)

module _ {zod : Zod} (laws : ZodLaws zod) (world : JobWorld) (n : JobName) (payload : PayloadOf n)
    (parses : (job_definition zod n).schema (payload_json n payload)
      ≡ success (payload_json n payload))
    (queues : QueueRegistry) (caller : Caller) (options : EnqueueOptions) (p : Prepared)
    (accepted : IsPrepared zod queues caller (name_text n) (payload_json n payload) options p)
    (valid : IsValidMeta zod p.envelope.meta) where
  abbrev enqueued : Json
  enqueued = envelope_json p.envelope

  definition-eq : p.definition ≡ job_definition zod n
  definition-eq = some_unique accepted.known (get_job_definition-name_text zod n)

  payload-eq : p.envelope.payload ≡ payload_json n payload
  payload-eq = success-injective (
      sym accepted.accepted
      ∙ subst
          (λ (d : JobDefinition).
            d.schema (payload_json n payload) ≡ success (payload_json n payload))
          (sym definition-eq) parses)

  -- The typed job that the producer stored is what its processor is called with.
  pub invoke-enqueued_payload :
      (attempt : JobMeta → ℕ)
      → (register zod (job_definition zod n) (process world n)).invoke enqueued attempt
        ≡ normal (record { meta = p.envelope.meta; work = as_work n (run_job world n payload) })
  invoke-enqueued_payload attempt =
      invoke-typed zod world laws n payload p.envelope attempt valid payload-eq parses

  -- A payload of the type that its job's name says is accepted by the producer, and stored with
  -- valid metadata. In an attempt, the promise that the invocation of the stored job gives settles
  -- first, before any abort, as the job's processor ends on that very payload. Then the attempt
  -- ends with that result as JSON, or with that error, unchanged, and is counted as retrying exactly
  -- if it is an error classified as retryable and attempts are left.
  pub process_job-enqueued :
      (host : Host) (readable : NamesReadable host) (queue_name : Text) (default_timeout_ms : ℕ)
      (job : Job) (signal : Option Signal) (c : Completion (ResultOf n))
      (events later : List AttemptEvent) (duration : ℕ) (r : Exec Json)
      → job.name ≡ name_text n
      → job.stored ≡ enqueued
      → is_aborted signal ≡ false
      → run_job world n payload ≡ some c
      → ((i : Invoked Work)
          → (register zod (job_definition zod n) (process world n)).invoke job.stored
              (λ meta. attempt_of job)
            ≡ normal i
          → events ≡ settlement i.work ++ later)
      → process_job host
          (program_registry zod world)
          queue_name
          default_timeout_ms
          job
          signal
          events
          duration
        ≡ some r
      → FollowsRace host job r (map_completion (result_json n) c)
  process_job-enqueued host readable queue_name default_timeout_ms job signal c events later
        duration r name stored live ran promise ended =
      let entry = register zod (job_definition zod n) (process world n) in
      let i : Invoked Work = record {
        meta = p.envelope.meta;
        work = as_work n (run_job world n payload);
      } in
      let known : registry_get (program_registry zod world) job.name ≡ some entry =
        rw name (entry_of zod world n) in
      let called : entry.invoke job.stored (λ meta. attempt_of job) ≡ normal i =
        rw stored (invoke-enqueued_payload (λ meta. attempt_of job)) in
      let first : events ≡ settles (map_completion (result_json n) c) ∷ later =
        rw ran at (promise i called) in
      let (end, ended_by, follows) =
        process_job-FollowsRace host readable (program_registry zod world) queue_name
          default_timeout_ms job signal events duration entry known r ended in
      let settled =
        race_with_abort-settles host signal _ (map_completion (result_json n) c) later end live
          (rw (called, first) at ended_by) in
      rw settled at follows
