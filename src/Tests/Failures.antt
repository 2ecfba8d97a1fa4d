-- ===== src/Tests/Failures.antt =====
-- A failed attempt and its dead-letter record at a concrete input.
use queue_worker_kit.Prelude.{◌≡◌, ◌-◌, refl, codes, length, drop, text_eq, [], ◌∷◌, none, some}
use queue_worker_kit.Config.Defaults.{email}
use queue_worker_kit.Values.{Value, kit, throw, object_of, kit_object, kit_non_retryable, kit_name}
use queue_worker_kit.Errors.{classify_error, is_non_retryable_error}
use queue_worker_kit.Errors.Laws.{classify_error-kit}
use queue_worker_kit.Dictionary.{lookup, insert, insert_all}
use queue_worker_kit.Json.{Json, get_field, property}
use queue_worker_kit.Jobs.Types.{envelope_json, meta_json}
use queue_worker_kit.Jobs.Definitions.{send_email_job, generate_report_job, cleanup_job}
use queue_worker_kit.Observability.Effects.{
  Exec, inc, log, observe_duration, info, warn, jobs_started, jobs_failed,
}
use queue_worker_kit.Worker.Race.{race_with_abort, settles}
use queue_worker_kit.Worker.Processor.{Job, process_job}
use queue_worker_kit.Worker.Processor.Laws.{tally}
use queue_worker_kit.Worker.DeadLetter.{DeadLetterRecord, record_id}
use queue_worker_kit.Worker.DeadLetter.Laws.{added}
use queue_worker_kit.Worker.Create.{dead_letter_input, failed, on_event}
use queue_worker_kit.Worker.Create.Failure.{IsFiled, IsFailedFor, process_job-dead_letters}
use queue_worker_kit.Jobs.Processors.Email.{unknown_template}
use queue_worker_kit.Jobs.Registry.{create_job_registry, registry_get, register, parsed_or_throw}
use queue_worker_kit.Tests.Fixtures.{test_host, test_host-NamesReadable, test_zod, test_zod-laws}
use queue_worker_kit.Tests.Workers.{
  test_registry, email_job, envelope, test_job, invoked, known, called, labels, listed,
  listed-IsWorking, not_dead_letter, envelope_valid,
}

abbrev thrown : Value
thrown = kit (
    unknown_template
      (record { to = codes "a@example.com"; template = codes "farewell"; user_id = codes "7" }))

abbrev refused : Exec Json
refused = (
  throw thrown,
  inc jobs_started labels
      ∷ log info (codes "job started")
      ∷ observe_duration labels 4
      ∷ inc jobs_failed labels
      ∷ log warn (codes "job failed")
      ∷ [],
)

refused-is_last :
    process_job test_host test_registry email 30_000 test_job none (settles (throw thrown) ∷ []) 4
    ≡ some refused
unfolding process_job registry_get create_job_registry lookup insert_all insert text_eq
    send_email_job generate_report_job cleanup_job register envelope_json meta_json property
    get_field parsed_or_throw race_with_abort classify_error is_non_retryable_error object_of
    kit_object kit_non_retryable kit_name
refused-is_last = refl

abbrev ended : Job
ended = record test_job { attempts_made = 2 }

ended-IsFailedFor : IsFailedFor test_job ended
ended-IsFailedFor = record { name = refl; stored = refl; attempts_made = refl; finished = refl }

process_job-dead_letters_example :
    (refused.0 ≡ throw thrown)
    × (tally refused.1).retrying ≡ 0
    × ((rec : DeadLetterRecord) × IsFiled test_host email envelope test_job thrown rec
        × let all = added (record_id (dead_letter_input test_zod email ended thrown)) rec [] in
          (on_event test_zod test_host listed 2 email 9 (failed (some ended) thrown) []).0
          ≡ drop (length all - 2) all)
unfolding kit_non_retryable
process_job-dead_letters_example =
    process_job-dead_letters test_zod test_zod-laws test_host test_host-NamesReadable test_registry
      listed (λ es. es) listed-IsWorking 2 email not_dead_letter email_job 30_000 envelope test_job
      ended none [] 4 9 thrown invoked refused [] known envelope_valid refl called refl
      (classify_error-kit test_host _) refused-is_last ended-IsFailedFor
