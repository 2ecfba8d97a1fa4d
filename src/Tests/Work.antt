-- ===== src/Tests/Work.antt =====
-- The theorems on typed jobs at concrete inputs.
use queue_worker_kit.Prelude.{
  ◌-◌, ◌≡◌, ◌↔◌, refl, sym, ap, arith, ◌∙◌, ◌++◌, map, codes, text_eq, ends_with, length, drop,
  Text, List, [], ◌∷◌, true, none, some,
}
use queue_worker_kit.Config.Defaults.{email}
use queue_worker_kit.Values.{
  Value, kit, normal, normal-injective, throw, object_of, kit_object, kit_non_retryable, kit_name,
}
use queue_worker_kit.Dictionary.{lookup, insert, insert_all}
use queue_worker_kit.Errors.{classify_error, is_non_retryable_error}
use queue_worker_kit.Json.{Json, get_field, property}
use queue_worker_kit.Jobs.Types.{envelope_json, meta_json, IsValidMeta, success}
use queue_worker_kit.Jobs.Definitions.{send_email_job, generate_report_job, cleanup_job}
use queue_worker_kit.Jobs.Processors.Email.{
  SendEmailPayload, SendEmailResult, process_email, send, unknown_template,
}
use queue_worker_kit.Jobs.Processors.Cleanup.{since_epoch}
use queue_worker_kit.Jobs.Registry.{
  Invoked, register, registry_get, create_job_registry, parsed_or_throw, get_job_definition,
  job_definitions, is_job_name, job_names,
}
use queue_worker_kit.Jobs.Names.{
  JobName, email_send, name_text, job_name_list, job_definition, payload_json, result_json,
}
use queue_worker_kit.Jobs.Names.Laws.{is_job_name-JobName}
use queue_worker_kit.Jobs.Work.{
  Work, as_work, settlement, JobWorld, run_job, process, program_registry,
}
use queue_worker_kit.Jobs.Work.Laws.{invoke-enqueued_payload, process_job-enqueued}
use queue_worker_kit.Jobs.Work.Unsendable.{unsendable-dead_letters}
use queue_worker_kit.Observability.Context.{resolve_correlation_id}
use queue_worker_kit.Observability.Effects.{
  Exec, inc, log, observe_duration, info, warn, jobs_started, jobs_completed, jobs_failed,
}
use queue_worker_kit.Queue.Registry.{create_queue_registry, get_or_throw, get}
use queue_worker_kit.Queue.Enqueue.Prepare.{
  EnqueueOptions, Prepared, prepare, check_delay, envelope_of, job_options,
}
use queue_worker_kit.Queue.Enqueue.Laws.{IsPrepared, prepare_iff}
use queue_worker_kit.Utils.Sleep.{slept, start, run, wake, timer_fires}
use queue_worker_kit.Worker.Race.{AttemptEvent, race_with_abort}
use queue_worker_kit.Worker.Processor.{Job, attempt_of, process_job}
use queue_worker_kit.Worker.Processor.Laws.{tally}
use queue_worker_kit.Worker.Processor.Outcome.{FollowsRace}
use queue_worker_kit.Worker.DeadLetter.{DeadLetterRecord, record_id}
use queue_worker_kit.Worker.DeadLetter.Laws.{added}
use queue_worker_kit.Worker.Create.{dead_letter_input, failed, on_event}
use queue_worker_kit.Worker.Create.Failure.{IsFiled, IsFailedFor}
use queue_worker_kit.Tests.Fixtures.{test_host, test_host-NamesReadable, test_zod, test_zod-laws}
use queue_worker_kit.Tests.Kit.{answering, test_queues, test_caller}
use queue_worker_kit.Tests.Kit.{calm}
use queue_worker_kit.Tests.Workers.{labels, listed, listed-IsWorking}

is_job_name-JobName_example :
    ((name : Text) → (is_job_name test_zod name ≡ true) ↔ ((n : JobName) × (name ≡ name_text n)))
    × ((m n : JobName) → name_text m ≡ name_text n → m ≡ n)
    × (job_names test_zod ≡ map name_text job_name_list)
    × ((n : JobName)
        → (get_job_definition test_zod (name_text n) ≡ some (job_definition test_zod n))
          × ((job_definition test_zod n).name ≡ name_text n))
is_job_name-JobName_example = is_job_name-JobName test_zod

abbrev bare : EnqueueOptions
bare = record {
  delay = none;
  priority = none;
  attempts = none;
  correlation_id = none;
  idempotency_key = none;
  idempotency_ttl_ms = none;
}

abbrev with_template : Text → SendEmailPayload
with_template template = record {
  to = codes "a@example.com";
  template = template;
  user_id = codes "7";
}

abbrev message : SendEmailPayload
message = with_template (codes "welcome")

abbrev unsendable : SendEmailPayload
unsendable = with_template (codes "farewell")

abbrev prepared : SendEmailPayload → Prepared
prepared m = record {
  definition = send_email_job test_zod;
  queue = answering email;
  envelope = envelope_of test_caller bare (payload_json email_send m);
  options = job_options (send_email_job test_zod).default_job_options bare;
}

parses :
    (m : SendEmailPayload)
    → (job_definition test_zod email_send).schema (payload_json email_send m)
      ≡ success (payload_json email_send m)
unfolding send_email_job payload_json property get_field text_eq
parses m = refl

accepted :
    (m : SendEmailPayload)
    → IsPrepared test_zod test_queues test_caller
        (name_text email_send)
        (payload_json email_send m)
        bare
        (prepared m)
unfolding prepare get_job_definition job_definitions lookup text_eq send_email_job
    generate_report_job cleanup_job payload_json property get_field parsed_or_throw check_delay
    get_or_throw get create_queue_registry
accepted m =
    (prepare_iff test_zod test_queues test_caller (name_text email_send) (payload_json email_send m)
        bare (prepared m)).0
      refl

valid : (m : SendEmailPayload) → IsValidMeta test_zod (prepared m).envelope.meta
unfolding envelope_of resolve_correlation_id
valid m = record {
  correlation_id = (omega arith, omega arith);
  enqueued_at = refl;
  idempotency_key = tt;
}

abbrev world : JobWorld
world = record {
  host = test_host;
  signal = calm;
  wakes = timer_fires ∷ [];
  moments = [];
  now = 5;
  stamp = codes "k3";
  new_date = λ t. since_epoch 0;
}

abbrev job_of : SendEmailPayload → Job
job_of m = record {
  id = some (codes "7");
  name = name_text email_send;
  stored = envelope_json (prepared m).envelope;
  attempts_made = 0;
  attempts = some 3;
  finished_on = none;
}

abbrev promised : SendEmailPayload → List AttemptEvent
promised m = settlement (as_work email_send (run_job world email_send m)) ++ []

promised_by :
    (m : SendEmailPayload) (i : Invoked Work)
    → (register test_zod (job_definition test_zod email_send) (process world email_send)).invoke
        (job_of m).stored
        (λ meta. attempt_of (job_of m))
      ≡ normal i
    → promised m ≡ settlement i.work ++ []
promised_by m i h =
    ap (λ (j : Invoked Work). settlement j.work ++ [])
      (normal-injective (
        sym (
          invoke-enqueued_payload test_zod-laws world email_send m (parses m) test_queues
            test_caller bare (prepared m) (accepted m) (valid m) (λ meta. attempt_of (job_of m)))
        ∙ h))

abbrev receipt : SendEmailResult
receipt = record {
  delivered = true;
  provider_message_id = codes "demo_7_k3";
  template = codes "welcome";
}

abbrev completed : Exec Json
completed = (
  normal (result_json email_send receipt),
  inc jobs_started labels
      ∷ log info (codes "job started")
      ∷ observe_duration labels 4
      ∷ inc jobs_completed labels
      ∷ log info (codes "job completed")
      ∷ [],
)

process_job-enqueued_example :
    FollowsRace test_host (job_of message) completed (normal (result_json email_send receipt))
unfolding process_job program_registry registry_get create_job_registry lookup insert_all insert
    text_eq send_email_job generate_report_job cleanup_job register envelope_json meta_json property
    get_field parsed_or_throw race_with_abort run_job process_email send slept start run wake
    envelope_of resolve_correlation_id result_json payload_json process ends_with
process_job-enqueued_example =
    process_job-enqueued test_zod-laws world email_send message (parses message) test_queues
      test_caller bare (prepared message) (accepted message) (valid message) test_host
      test_host-NamesReadable email 30_000 (job_of message) none (normal receipt) (promised message)
      [] 4 completed refl refl refl refl (promised_by message) refl

abbrev thrown : Value
thrown = kit (unknown_template unsendable)

abbrev refused : Exec Json
refused = (
  throw thrown,
  inc jobs_started labels
      ∷ log info (codes "job started")
      ∷ observe_duration labels 4
      ∷ inc jobs_failed labels
      ∷ log warn (codes "job failed")
      ∷ [],
)

abbrev ended : Job
ended = record (job_of unsendable) { attempts_made = 1; finished_on = some 9 }

ended-IsFailedFor : IsFailedFor (job_of unsendable) ended
ended-IsFailedFor = record { name = refl; stored = refl; attempts_made = refl; finished = refl }

unsendable-dead_letters_example :
    (refused.0 ≡ throw thrown)
    × (tally refused.1).retrying ≡ 0
    × ((rec : DeadLetterRecord) × IsFiled test_host email
          (prepared unsendable).envelope
          (job_of unsendable)
          thrown
          rec
        × let all = added (record_id (dead_letter_input test_zod email ended thrown)) rec [] in
          (on_event test_zod test_host listed 2 email 9 (failed (some ended) thrown) []).0
          ≡ drop (length all - 2) all)
unfolding process_job program_registry registry_get create_job_registry lookup insert_all insert
    text_eq send_email_job generate_report_job cleanup_job register envelope_json meta_json property
    get_field parsed_or_throw race_with_abort run_job process_email send envelope_of
    resolve_correlation_id payload_json process classify_error is_non_retryable_error object_of
    kit_object kit_non_retryable kit_name
unsendable-dead_letters_example =
    unsendable-dead_letters test_zod-laws world unsendable refl (parses unsendable) test_queues
      test_caller bare (prepared unsendable) (accepted unsendable) (valid unsendable) test_host
      test_host-NamesReadable listed (λ es. es) listed-IsWorking 2 30_000 (job_of unsendable) ended
      none (promised unsendable) [] 4 9 refused [] refl refl refl (promised_by unsendable) refl
      ended-IsFailedFor
