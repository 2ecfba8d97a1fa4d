-- ===== src/Tests/Jobs.antt =====
-- The theorems on jobs, queues and the producer at concrete inputs.
use mathlib.Core.Logic.{inl}
use queue_worker_kit.Prelude.{ℕ, ◌≡◌, ◌↔◌, refl, arith, codes, text_eq, [], none, some}
use queue_worker_kit.Config.Defaults.{email, all_queue_names}
use queue_worker_kit.Values.{Value, normal, throw, nat}
use queue_worker_kit.Errors.{classify_error, non_retryable_class}
use queue_worker_kit.Json.{Json, obj, field, end, get_field, property}
use queue_worker_kit.Jobs.Types.{JobMeta, success, envelope_json}
use queue_worker_kit.Jobs.Definitions.{send_email_job}
use queue_worker_kit.Jobs.Registry.{
  RegisteredJob, create_job_registry, registry_get, job_definitions, get_job_definition,
}
use queue_worker_kit.Queue.Registry.{get}
use queue_worker_kit.Queue.Registry.Laws.{get-create_queue_registry}
use queue_worker_kit.Queue.Enqueue.Prepare.{
  EnqueueOptions, Prepared, prepare, envelope_of, job_options,
}
use queue_worker_kit.Queue.Enqueue.Reference.{IsDescribed, prepare-IsDescribed}
use queue_worker_kit.Queue.Enqueue.RoundTrip.{enqueue-unchecked_correlation_id}
use queue_worker_kit.Dictionary.{lookup}
use queue_worker_kit.Tests.Kit.{test_processors, answering, test_queues, test_caller}
use queue_worker_kit.Tests.Fixtures.{test_host, test_zod, test_zod-laws}

abbrev plain_options : EnqueueOptions
plain_options = record {
  delay = some (nat 5);
  priority = none;
  attempts = some 4;
  correlation_id = none;
  idempotency_key = some (codes "once");
  idempotency_ttl_ms = none;
}

abbrev message : Json
message = obj (field (codes "to") (Json.str (codes "a@example.com")) end)

abbrev prepared_with : EnqueueOptions → Prepared
prepared_with options = record {
  definition = send_email_job test_zod;
  queue = answering email;
  envelope = envelope_of test_caller options message;
  options = job_options (send_email_job test_zod).default_job_options options;
}

email_queue : get test_queues email ≡ some (answering email)
unfolding text_eq
email_queue = get-create_queue_registry answering all_queue_names email

prepare-IsDescribed_example :
    (prepare test_zod test_queues test_caller (codes "email.send") message plain_options
      ≡ normal (prepared_with plain_options))
    ↔ IsDescribed test_zod test_queues test_caller
        (codes "email.send")
        message
        plain_options
        (prepared_with plain_options)
prepare-IsDescribed_example =
    prepare-IsDescribed test_zod test_queues test_caller (codes "email.send") message plain_options
      (prepared_with plain_options)

abbrev empty_id : EnqueueOptions
empty_id = record plain_options { correlation_id = some [] }

email_known : get_job_definition test_zod (codes "email.send") ≡ some (send_email_job test_zod)
unfolding get_job_definition job_definitions lookup text_eq send_email_job
email_known = refl

message_valid : (send_email_job test_zod).schema message ≡ success message
unfolding send_email_job property get_field text_eq
message_valid = refl

email_registered : get test_queues (send_email_job test_zod).queue ≡ some (answering email)
unfolding send_email_job
email_registered = email_queue

enqueue-unchecked_correlation_id_example :
    (p : Prepared) × (prepare test_zod test_queues test_caller (codes "email.send") message empty_id
      ≡ normal p)
    × ((job : RegisteredJob (Unit {0})) × (registry_get
            (create_job_registry test_zod test_processors)
            (codes "email.send")
          ≡ some job)
        × ((attempt : JobMeta → ℕ)
            → (v : Value) × (job.invoke (envelope_json p.envelope) attempt ≡ throw v)
              × (classify_error test_host v ≡ normal non_retryable_class)))
enqueue-unchecked_correlation_id_example =
    enqueue-unchecked_correlation_id test_zod test_processors test_zod-laws test_queues test_caller
      (codes "email.send") message message empty_id (send_email_job test_zod) (answering email)
      test_host [] email_known message_valid (omega arith) email_registered refl (inl refl)
