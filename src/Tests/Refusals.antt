-- ===== src/Tests/Refusals.antt =====
-- A refused request and its answer at a concrete input.
use queue_worker_kit.Prelude.{◌≡◌, refl, text_eq, codes, decimal, [], ◌∷◌, ◌++◌, true, false}
use queue_worker_kit.Config.Defaults.{all_queue_names, max_enqueue_delay_ms}
use queue_worker_kit.Values.{
  Value, KitError, kit, undefined, negative, non_retryable, normal, throw,
}
use queue_worker_kit.Dictionary.{lookup}
use queue_worker_kit.Json.{Json, Fields, field, end, property, get_field}
use queue_worker_kit.Jobs.Definitions.{send_email_job, generate_report_job, cleanup_job}
use queue_worker_kit.Jobs.Registry.{get_job_definition, job_definitions, parsed_or_throw}
use queue_worker_kit.Observability.Effects.{log, warn}
use queue_worker_kit.Queue.Registry.{create_queue_registry}
use queue_worker_kit.Queue.Enqueue.Prepare.{prepare, check_delay}
use queue_worker_kit.Queue.Enqueue.Refusal.{is_refusal}
use queue_worker_kit.Api.Errors.Validation.{handle_error}
use queue_worker_kit.Api.Jobs.{split_enqueue_options, payload_of, is_option_key}
use queue_worker_kit.Api.Jobs.Create.{post_job}
use queue_worker_kit.Api.Jobs.Refusal.{answer_to, post_job-refused}
use queue_worker_kit.Tests.Fixtures.{test_host, test_zod}
use queue_worker_kit.Tests.Kit.{answering, test_caller}

abbrev early : Fields
early =
    field (codes "to") (Json.str (codes "a@example.com"))
      (field (codes "delay") (Json.num (negative 5)) end)

abbrev bad_delay : Value
bad_delay = kit (
    non_retryable
      (codes "delay must be an integer between 0 and "
        ++ (decimal max_enqueue_delay_ms ++ codes "ms"))
      undefined)

post_job-refused_example :
    (post_job test_zod
        (create_queue_registry answering all_queue_names)
        test_caller
        (codes "email.send")
        early
      ≡ (throw bad_delay, []))
    × ((e : KitError) × (bad_delay ≡ kit e)
        × (is_refusal e ≡ true)
        × (handle_error test_host false bad_delay
            ≡ (normal (answer_to e), log warn (codes "request failed") ∷ [])))
unfolding prepare get_job_definition job_definitions lookup text_eq send_email_job
    generate_report_job cleanup_job split_enqueue_options payload_of is_option_key property
    get_field parsed_or_throw check_delay
post_job-refused_example =
    post_job-refused test_host false test_zod answering test_caller (codes "email.send") early
      bad_delay refl
