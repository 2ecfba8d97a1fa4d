-- ===== src/Worker/Processor.antt =====
-- `createJobProcessor` of src/worker/processor.ts: one attempt at one job.
pub mod Laws
pub mod Outcome
pub mod Ends
pub mod Labelling
use queue_worker_kit.Prelude.{
  ℕ, ◌+◌, Text, codes, ltb, ◌&&◌, ◌++◌, List, [], ◌∷◌, Bool, true, false, Option, none, some,
  or_else, if◌then◌else◌,
}
use queue_worker_kit.Values.{Value, kit, unknown_job, Completion, normal, throw, Host}
use queue_worker_kit.Errors.{
  ErrorClassification, non_retryable_class, retryable_class, classify_error,
}
use queue_worker_kit.Json.{Json}
use queue_worker_kit.Jobs.Types.{JobMeta}
use queue_worker_kit.Jobs.Registry.{Invoked, RegisteredJob, JobRegistry, registry_get}
use queue_worker_kit.Observability.Effects.{
  Effect, Labels, inc, observe_duration, log, info, warn, error, jobs_started, jobs_completed,
  jobs_failed, jobs_retrying, Exec, after, emit, lift, fail, pure, ◌>>=◌, ◌>>◌,
}
use queue_worker_kit.Utils.Sleep.{Signal}
use queue_worker_kit.Worker.Race.{AttemptEvent, settles, RaceResult, race_with_abort}

-- What the program reads of a BullMQ job.
pub record Job : Type 0 where
  pub id : Option Text
  pub name : Text
  pub stored : Json
  pub attempts_made : ℕ
  pub attempts : Option ℕ
  pub finished_on : Option ℕ

abbrev pub attempt_of : Job → ℕ
attempt_of job = job.attempts_made + 1

-- `job.opts.attempts ?? 1`
abbrev pub attempts_allowed : Job → ℕ
attempts_allowed job = or_else job.attempts 1

abbrev is_retryable : ErrorClassification → Bool
is_retryable retryable_class = true
is_retryable non_retryable_class = false

-- The attempt after its race: `started` says whether `timing.startedAt` was set, and `duration`
-- is what the clock then gives.
on_completed : Labels → ℕ → Json → Exec Json
on_completed labels duration result = do
  emit (observe_duration labels duration)
  emit (inc jobs_completed labels)
  emit (log info (codes "job completed"))
  pure result

-- The retry is decided by the class of the error and the attempts that are left.
will_retry : Job → ErrorClassification → Bool
will_retry job class = is_retryable class && ltb (attempt_of job) (attempts_allowed job)

observed : Bool → Labels → ℕ → List Effect
observed started labels duration = if started then observe_duration labels duration ∷ [] else []

retried : Bool → Labels → List Effect
retried again labels =
    if again
    then inc jobs_retrying labels ∷ log warn (codes "job failed, retrying") ∷ []
    else log warn (codes "job failed") ∷ []

on_failed : Host → Labels → Job → Bool → ℕ → Value → Exec Json
unfolding will_retry observed retried
on_failed host labels job started duration thrown = after (observed started labels duration) do
  emit (inc jobs_failed labels)
  class ← lift (classify_error host thrown)
  after (retried (will_retry job class) labels) (fail thrown)

finish : Host → Labels → Job → Bool → ℕ → Completion Json → Exec Json
unfolding on_completed on_failed
finish host labels job started duration (normal result) = on_completed labels duration result
finish host labels job started duration (throw v) = on_failed host labels job started duration v

unknown : Text → Job → Exec Json
unknown queue_name job = do
  emit (inc jobs_failed (record { queue = queue_name; job_name = some job.name }))
  emit (log error (codes "no processor registered for job"))
  fail (kit (unknown_job job.name))

-- An invocation that throws leaves a rejected promise, which the race meets first.
module _ {Work : Type 0} where
  abbrev is_started : Completion (Invoked Work) → Bool
  is_started (normal invoked) = true
  is_started (throw v) = false

  abbrev events_of : Completion (Invoked Work) → List AttemptEvent → List AttemptEvent
  events_of (normal invoked) events = events
  events_of (throw v) events = settles (throw v) ∷ []

  start_effects : Labels → Completion (Invoked Work) → List Effect
  start_effects labels (normal invoked) =
      inc jobs_started labels ∷ log info (codes "job started") ∷ []
  start_effects labels (throw v) = []

  settle_attempt :
      Host → Labels → Job → ℕ → Completion (Invoked Work) → Option RaceResult → Option (Exec Json)
  unfolding start_effects finish
  settle_attempt host labels job duration invoked none = none
  settle_attempt host labels job duration invoked (some race) = some (
      after (start_effects labels invoked)
        (finish host labels job (is_started invoked) duration race.outcome))

  run_entry :
      Host
      → Text
      → ℕ
      → Job
      → Option Signal
      → List AttemptEvent
      → ℕ
      → RegisteredJob Work
      → Option (Exec Json)
  unfolding settle_attempt
  run_entry host queue_name default_timeout_ms job signal events duration entry =
      let labels : Labels = record { queue = queue_name; job_name = some entry.definition.name } in
      let invoked = entry.invoke job.stored (λ meta. attempt_of job) in
      let timeout_ms = or_else entry.definition.timeout_ms default_timeout_ms in
      settle_attempt host labels job duration invoked
        (race_with_abort host signal timeout_ms (events_of invoked events))

  dispatch :
      Host
      → Text
      → ℕ
      → Job
      → Option Signal
      → List AttemptEvent
      → ℕ
      → Option (RegisteredJob Work)
      → Option (Exec Json)
  unfolding run_entry unknown
  dispatch host queue_name default_timeout_ms job signal events duration none =
      some (unknown queue_name job)
  dispatch host queue_name default_timeout_ms job signal events duration (some entry) =
      run_entry host queue_name default_timeout_ms job signal events duration entry

  -- No result means that the attempt is still running.
  unfoldable pub process_job :
      Host
      → JobRegistry Work
      → Text
      → ℕ
      → Job
      → Option Signal
      → List AttemptEvent
      → ℕ
      → Option (Exec Json)
  unfolding dispatch
  process_job host registry queue_name default_timeout_ms job signal events duration =
      dispatch host queue_name default_timeout_ms job signal events duration
        (registry_get registry job.name)
