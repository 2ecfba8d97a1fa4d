-- ===== src/Tests/Workers.antt =====
-- The theorems on attempts and dead-letter records at concrete inputs.
use queue_worker_kit.Prelude.{
  ℕ, suc, ◌-◌, ◌≤◌, ◌≡◌, refl, arith, codes, text_eq, length, take, drop, ◌++◌, List, [], ◌∷◌, true,
  false, Option, none, some, is_some,
}
use queue_worker_kit.Config.Defaults.{email, dead_letter}
use queue_worker_kit.Values.{
  undefined, str, kit, plain, job_timeout, normal, throw, object_of, kit_object, kit_non_retryable,
  kit_name,
}
use queue_worker_kit.Errors.{classify_error, is_non_retryable_error}
use queue_worker_kit.Json.{Json, obj, field, end, get_field, property}
use queue_worker_kit.Jobs.Types.{JobEnvelope, envelope_json, meta_json, IsValidMeta}
use queue_worker_kit.Jobs.Definitions.{send_email_job, generate_report_job, cleanup_job}
use queue_worker_kit.Jobs.Registry.{
  JobRegistry, Invoked, RegisteredJob, register, registry_get, create_job_registry, parsed_or_throw,
}
use queue_worker_kit.Dictionary.{lookup, insert, insert_all}
use queue_worker_kit.Utils.Sleep.{Signal}
use queue_worker_kit.Observability.Effects.{
  Exec, Labels, inc, log, observe_duration, info, warn, jobs_started, jobs_failed, jobs_retrying,
}
use queue_worker_kit.Worker.Race.{
  AttemptEvent, settles, deadline, RaceResult, race_with_abort, abort_error,
}
use queue_worker_kit.Worker.Processor.{Job, process_job}
use queue_worker_kit.Worker.Processor.Laws.{IsAccounted, process_job-IsAccounted}
use queue_worker_kit.Worker.Processor.Outcome.{FollowsRace, process_job-FollowsRace}
use queue_worker_kit.Worker.Processor.Ends.{process_job-ends}
use queue_worker_kit.Worker.DeadLetter.{
  DeadLetterInput, DeadLetterQueue, make_record, record_id, record_failure,
}
use queue_worker_kit.Worker.DeadLetter.Laws.{
  Entries, added, erased, ids, IsWorking, counted, failures, record_failure-keeps_newest,
}
use queue_worker_kit.Worker.DeadLetter.Bound.{record_failure_idempotent, record_failure-misreported}
use queue_worker_kit.Worker.Create.{WorkerEvent, ready, failed, closed, on_event}
use queue_worker_kit.Worker.Create.Laws.{after_events, after_events-bounded}
use queue_worker_kit.Tests.Kit.{test_processors, test_queues, test_caller}
use queue_worker_kit.Observability.Labels.{AreLabelled}
use queue_worker_kit.Queue.Enqueue.{enqueue}
use queue_worker_kit.Queue.Enqueue.Prepare.{EnqueueOptions}
use queue_worker_kit.Worker.Labelling.{effects-AreLabelled}
use queue_worker_kit.Tests.Fixtures.{test_host, test_host-NamesReadable, test_zod}

abbrev aborted : Signal
aborted = record { aborted = true; reason = str (codes "lock lost") }

abbrev pub test_registry : JobRegistry (Unit {0})
test_registry = create_job_registry test_zod test_processors

abbrev pub email_job : RegisteredJob (Unit {0})
email_job = register test_zod (send_email_job test_zod) test_processors.email

abbrev pub envelope : JobEnvelope
envelope = record {
  payload = obj (field (codes "to") (Json.str (codes "a@example.com")) end);
  meta = record {
    correlation_id = codes "request-1";
    enqueued_at = codes "now";
    idempotency_key = none;
  };
}

abbrev pub test_job : Job
test_job = record {
  id = some (codes "7");
  name = codes "email.send";
  stored = envelope_json envelope;
  attempts_made = 1;
  attempts = some 3;
  finished_on = some 9;
}

abbrev pub invoked : Invoked (Unit {0})
invoked = record { meta = envelope.meta; work = tt }

pub known : registry_get test_registry (codes "email.send") ≡ some email_job
unfolding registry_get create_job_registry lookup insert_all insert text_eq send_email_job
    generate_report_job cleanup_job register
known = refl

pub called : email_job.invoke (envelope_json envelope) (λ meta. 2) ≡ normal invoked
unfolding register envelope_json meta_json property get_field text_eq parsed_or_throw send_email_job
called = refl

abbrev late : List AttemptEvent
late = deadline ∷ settles (normal Json.null) ∷ []

abbrev attempt : Option (Exec Json)
attempt = process_job test_host test_registry email 30_000 test_job none late 4

process_job-ends_example : is_some attempt ≡ true
process_job-ends_example =
    process_job-ends test_host test_registry email 30_000 test_job none late 4 refl

abbrev pub labels : Labels
labels = record { queue = email; job_name = some (codes "email.send") }

abbrev timed_out : Exec Json
timed_out = (
  throw (kit (job_timeout 30_000)),
  inc jobs_started labels
      ∷ log info (codes "job started")
      ∷ observe_duration labels 4
      ∷ inc jobs_failed labels
      ∷ inc jobs_retrying labels
      ∷ log warn (codes "job failed, retrying")
      ∷ [],
)

attempt-timed_out : attempt ≡ some timed_out
unfolding process_job registry_get create_job_registry lookup insert_all insert text_eq
    send_email_job generate_report_job cleanup_job register envelope_json meta_json property
    get_field parsed_or_throw race_with_abort classify_error is_non_retryable_error object_of
    kit_object kit_non_retryable kit_name abort_error
attempt-timed_out = refl

process_job-IsAccounted_example : IsAccounted timed_out
process_job-IsAccounted_example =
    process_job-IsAccounted test_host test_registry email 30_000 test_job none late 4 timed_out
      attempt-timed_out

process_job-FollowsRace_example :
    (end : RaceResult) × (race_with_abort test_host none 30_000 late ≡ some end)
    × FollowsRace test_host test_job timed_out end.outcome
unfolding send_email_job register envelope_json meta_json property get_field text_eq parsed_or_throw
process_job-FollowsRace_example =
    process_job-FollowsRace test_host test_host-NamesReadable test_registry email 30_000 test_job
      none late 4 email_job known timed_out attempt-timed_out

-- A dead-letter queue as the list of its waiting entries, and one that cannot count them.
abbrev pub listed : DeadLetterQueue Entries
listed = record {
  add = λ id rec es. (normal tt, added id rec es);
  waiting_count = λ es. normal (length es);
  get_waiting = λ from to es. normal (ids (take (suc to) es));
  remove = λ id es. (normal tt, erased id es);
}

abbrev uncounted : DeadLetterQueue Entries
uncounted = record listed { waiting_count = λ es. throw (kit (plain (codes "connection lost"))) }

pub listed-IsWorking : IsWorking listed (λ es. es)
listed-IsWorking = record {
  add_answers = λ id rec s. refl;
  add_adds = λ id rec s. refl;
  count_answers = λ s. refl;
  waiting_answers = λ to s. refl;
  remove_answers = λ id s. refl;
  remove_erases = λ id s. refl;
}

abbrev failure : DeadLetterInput
failure = record {
  source_queue = email;
  job = test_job;
  thrown = kit (plain (codes "boom"));
  correlation_id = codes "request-1";
  attempts_made = 3;
}

pub not_dead_letter : text_eq email dead_letter ≡ false
unfolding text_eq
not_dead_letter = refl

abbrev kept : Entries
kept = added (record_id failure) (make_record test_host 8 failure) []

record_failure-keeps_newest_example :
    ((record_failure listed test_host 2 8 failure []).1 ≡ drop (length kept - 2) kept)
    × (counted (record_failure listed test_host 2 8 failure []).2 ≡ 1)
    × (failures (record_failure listed test_host 2 8 failure []).2 ≡ 0)
record_failure-keeps_newest_example =
    record_failure-keeps_newest listed test_host 2 (λ es. es) listed-IsWorking 8 failure []
      not_dead_letter

record_failure_idempotent_example :
    (record_failure listed test_host 2 9 failure
      (record_failure listed test_host 2 8 failure []).1).1
    ≡ (record_failure listed test_host 2 8 failure []).1
record_failure_idempotent_example =
    record_failure_idempotent listed test_host 2 (λ es. es) listed-IsWorking 8 9 failure []
      not_dead_letter (omega arith) (omega arith)

record_failure-misreported_example :
    ((record_failure uncounted test_host 2 8 failure []).1 ≡ kept)
    × (counted (record_failure uncounted test_host 2 8 failure []).2 ≡ 1)
    × (failures (record_failure uncounted test_host 2 8 failure []).2 ≡ 1)
record_failure-misreported_example =
    record_failure-misreported uncounted test_host 2 8 failure []
      (kit (plain (codes "connection lost"))) not_dead_letter refl refl

abbrev of_dead_letter : DeadLetterInput
of_dead_letter = record failure { source_queue = dead_letter }

abbrev life : List (ℕ × WorkerEvent)
life =
    (1, ready)
    ∷ (8, failed (some test_job) (kit (plain (codes "boom"))))
    ∷ (9, failed none undefined)
    ∷ (10, closed)
    ∷ []

after_events-bounded_example : length (after_events test_zod test_host listed 2 email life []) ≤ 2
after_events-bounded_example =
    after_events-bounded test_zod test_host listed 2 email (λ es. es) listed-IsWorking
      not_dead_letter life [] (omega arith)

pub envelope_valid : IsValidMeta test_zod envelope.meta
envelope_valid = record {
  correlation_id = (omega arith, omega arith);
  enqueued_at = refl;
  idempotency_key = tt;
}

abbrev no_caller_options : EnqueueOptions
no_caller_options = record {
  delay = none;
  priority = none;
  attempts = none;
  correlation_id = none;
  idempotency_key = none;
  idempotency_ttl_ms = none;
}

effects-AreLabelled_example : AreLabelled (
    (enqueue test_zod test_queues test_caller
      (codes "email.send")
      (envelope_json envelope)
      no_caller_options).1
    ++ (timed_out.1
        ++ (on_event test_zod test_host listed 2 email 9 (failed (some test_job) undefined) []).1))
effects-AreLabelled_example =
    effects-AreLabelled test_zod test_host test_registry listed 2 email test_queues test_caller
      (codes "email.send") (envelope_json envelope) no_caller_options 30_000 test_job none late 4
      timed_out 9 (failed (some test_job) undefined) [] attempt-timed_out
