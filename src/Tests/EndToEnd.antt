-- ===== src/Tests/EndToEnd.antt =====
-- The theorems on the API's jobs and on the connection at concrete inputs.
use queue_worker_kit.Prelude.{
  ℕ, ◌-◌, ◌*◌, ◌≤◌, ◌<◌, ◌≡◌, refl, arith, codes, text_eq, List, [], ◌∷◌, none, some,
}
use queue_worker_kit.Config.Defaults.{email}
use queue_worker_kit.Values.{normal}
use queue_worker_kit.Dictionary.{lookup, insert}
use queue_worker_kit.Json.{Json, obj, Fields, field, end, property, get_field}
use queue_worker_kit.Jobs.Types.{JobMeta, envelope_json}
use queue_worker_kit.Jobs.Definitions.{send_email_job}
use queue_worker_kit.Jobs.Registry.{
  Invoked, RegisteredJob, parsed_or_throw, get_job_definition, job_definitions, create_job_registry,
  registry_get,
}
use queue_worker_kit.Queue.Registry.{create_queue_registry, get, get_or_throw}
use queue_worker_kit.Queue.Enqueue.{submit, enqueue}
use queue_worker_kit.Queue.Enqueue.Prepare.{Prepared, prepare, check_delay}
use queue_worker_kit.Queue.Enqueue.Laws.{IsPrepared}
use queue_worker_kit.Queue.Connection.{
  backoff, retry_strategy, ReadyEvent, becomes_ready, times_out,
}
use queue_worker_kit.Queue.Connection.Laws.{retry_strategy-bounds}
use queue_worker_kit.Api.Jobs.{is_option_key, payload_of, split_enqueue_options}
use queue_worker_kit.Api.Jobs.Create.{Accepted, post_job}
use queue_worker_kit.Api.Jobs.EndToEnd.{IsSound, OptionsFit, post_job-runs}
use queue_worker_kit.Tests.Fixtures.{test_zod, test_zod-laws}
use queue_worker_kit.Tests.Kit.{test_processors, test_queues, test_caller}

test_caller-IsSound : IsSound test_zod test_caller
test_caller-IsSound = record { ambient = tt; fresh = (omega arith, omega arith); now = refl }

abbrev body : Fields
body = field (codes "to") (Json.str (codes "a@example.com")) end

abbrev accepted : Accepted
accepted = record {
  status_code = 202;
  result = record {
    id = codes "1";
    name = codes "email.send";
    queue = email;
    deduplication_id = none;
  };
}

body-OptionsFit : OptionsFit (split_enqueue_options body).0
unfolding split_enqueue_options property get_field text_eq
body-OptionsFit = record { correlation_id = tt; idempotency_key = tt }

posted : (post_job test_zod test_queues test_caller (codes "email.send") body).0 ≡ normal accepted
unfolding post_job enqueue submit prepare split_enqueue_options payload_of is_option_key property
    get_field text_eq get_job_definition job_definitions lookup send_email_job check_delay
    get_or_throw get create_queue_registry insert parsed_or_throw
posted = refl

post_job-runs_example :
    (p : Prepared) × IsPrepared test_zod test_queues test_caller
      (codes "email.send")
      (obj (split_enqueue_options body).1)
      (split_enqueue_options body).0
      p
    × ((entry : RegisteredJob (Unit {0})) × (registry_get
            (create_job_registry test_zod test_processors)
            (codes "email.send")
          ≡ some entry)
        × ((attempt : JobMeta → ℕ)
            → (i : Invoked (Unit {0})) × (entry.invoke (envelope_json p.envelope) attempt
                ≡ normal i)
              × (i.meta ≡ p.envelope.meta)))
post_job-runs_example =
    post_job-runs test_zod test_zod-laws test_processors test_queues test_caller test_caller-IsSound
      (codes "email.send") body accepted body-OptionsFit posted

abbrev lower : ℕ → ℕ
lower k = k - 1

retry_strategy-bounds_example :
    (backoff 3 ≤ 2 * retry_strategy lower 3)
    × (retry_strategy lower 3 < backoff 3)
    × (100 ≤ retry_strategy lower 3)
    × (retry_strategy lower 3 < 5_000)
retry_strategy-bounds_example =
    retry_strategy-bounds lower (λ k h. omega (arith, h)) 3 (omega arith)

abbrev late : List ReadyEvent
late = times_out ∷ becomes_ready ∷ []
