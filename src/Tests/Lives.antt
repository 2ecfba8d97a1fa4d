-- ===== src/Tests/Lives.antt =====
-- The theorems on whole lives at a concrete input: a job whose attempt passes its deadline and whose
-- last one fails.
use queue_worker_kit.Prelude.{
  ℕ, ◌≤◌, ◌≡◌, refl, arith, text_eq, leb, List, [], ◌∷◌, Bool, true, false, Option, none, some,
  is_some, if◌then◌else◌,
}
use queue_worker_kit.Config.Defaults.{email}
use queue_worker_kit.Values.{undefined, throw, object_of, kit_object, kit_non_retryable, kit_name}
use queue_worker_kit.Errors.{classify_error, is_non_retryable_error}
use queue_worker_kit.Errors.Laws.{is_unrecoverable}
use queue_worker_kit.Dictionary.{lookup, insert, insert_all}
use queue_worker_kit.Json.{Json, get_field, property}
use queue_worker_kit.Jobs.Types.{envelope_json, meta_json}
use queue_worker_kit.Jobs.Definitions.{send_email_job, generate_report_job, cleanup_job}
use queue_worker_kit.Jobs.Registry.{create_job_registry, registry_get, register, parsed_or_throw}
use queue_worker_kit.Worker.Race.{deadline, settles, race_with_abort, abort_error}
use queue_worker_kit.Worker.Processor.{Job, attempt_of, attempts_allowed, process_job}
use queue_worker_kit.Worker.DeadLetter.Laws.{Entries}
use queue_worker_kit.Worker.Create.{on_event, is_terminal_failure}
use queue_worker_kit.Worker.Life.{Broker, BrokerLaws, Attempt, Life, completed, live}
use queue_worker_kit.Worker.Life.Laws.{IsSettled, live-IsSettled}
use queue_worker_kit.Tests.Fixtures.{
  test_host, test_host-NamesReadable, test_host-OwnNames, test_zod,
}
use queue_worker_kit.Tests.Workers.{
  test_registry, test_job, listed, listed-IsWorking, not_dead_letter,
}

abbrev is_final : Job → Bool → Bool
is_final job true = true
is_final job false = leb (attempts_allowed job) (attempt_of job)

abbrev finished : Bool → Option ℕ
finished final = if final then some 9 else none

abbrev test_broker : Broker
test_broker job v = record job {
  attempts_made = attempt_of job;
  finished_on = finished (is_final job (is_unrecoverable test_host v));
}

exhausted_final :
    (job : Job) (b : Bool)
    → attempts_allowed job ≤ attempt_of job
    → is_some (finished (is_final job b)) ≡ true
exhausted_final job true h = refl
exhausted_final job false h = ground arith

retryable_final :
    (job : Job)
    → is_some (finished (is_final job false)) ≡ true
    → attempts_allowed job ≤ attempt_of job
retryable_final job h = ground arith

test_broker-laws : BrokerLaws test_host test_broker
test_broker-laws = record {
  counts = λ job v. refl;
  keeps_name = λ job v. refl;
  keeps_data = λ job v. refl;
  keeps_attempts = λ job v. refl;
  gives_up = λ job v e. rw e refl;
  exhausted = λ job v none_left. exhausted_final job (is_unrecoverable test_host v) none_left;
  retries = λ job v e named ends. retryable_final job (rw e at ends);
}

abbrev attempts : List Attempt
attempts =
    record { signal = none; events = deadline ∷ []; duration = 4; now = 5 }
    ∷ record { signal = none; events = settles (throw undefined) ∷ []; duration = 2; now = 8 }
    ∷ []

abbrev test_life : Option (Life Entries)
test_life =
    live test_zod test_host test_registry listed 2 email 30_000 test_broker test_job attempts []

abbrev life_of : Option (Life Entries) → Life Entries
life_of none = record { results = []; ending = completed Json.null; reported = []; state = [] }
life_of (some l) = l

lived : test_life ≡ some (life_of test_life)
unfolding process_job registry_get create_job_registry lookup insert_all insert text_eq
    send_email_job generate_report_job cleanup_job register envelope_json meta_json property
    get_field parsed_or_throw race_with_abort classify_error is_non_retryable_error object_of
    kit_object kit_non_retryable kit_name abort_error on_event is_terminal_failure
lived = refl

live-IsSettled_example :
    IsSettled test_zod test_host (λ es. es) 2 email test_job [] (life_of test_life)
live-IsSettled_example =
    live-IsSettled test_zod test_host test_host-NamesReadable test_host-OwnNames test_registry
      listed (λ es. es) listed-IsWorking 2 email not_dead_letter 30_000 test_broker test_broker-laws
      test_job attempts [] (life_of test_life) (omega arith) lived
