-- ===== src/Worker/Processor/Ends.antt =====
-- How an attempt ends, whether or not its job is known (src/worker/processor.ts).
use queue_worker_kit.Prelude.{
  ℕ, Text, List, true, Option, none, some, some-eq-some, is_some, any, or_else, ◌≡◌, refl, subst,
  arith, inl, inr, Option-cases,
}
use queue_worker_kit.Values.{unknown_job, kit_non_retryable, Completion, normal, throw, Host}
use queue_worker_kit.Errors.Laws.{NamesReadable, classify_error-kit}
use queue_worker_kit.Json.{Json}
use queue_worker_kit.Jobs.Registry.{Invoked, RegisteredJob, JobRegistry, registry_get}
use queue_worker_kit.Observability.Effects.{Labels, Exec}
use queue_worker_kit.Utils.Sleep.{Signal}
use queue_worker_kit.Worker.Race.{AttemptEvent, RaceResult}
use queue_worker_kit.Worker.Race.Laws.{race_with_abort-ends, ends}
use queue_worker_kit.Worker.Processor.{
  Job, attempt_of, process_job, unknown, settle_attempt, events_of, run_entry,
}
use queue_worker_kit.Worker.Processor.Outcome.{FollowsRace, process_job-FollowsRace}

unknown-FollowsItself :
    (host : Host) (queue_name : Text) (job : Job)
    → FollowsRace host job (unknown queue_name job) (unknown queue_name job).0
unfolding unknown kit_non_retryable
unknown-FollowsItself host queue_name job =
    let class = classify_error-kit host (unknown_job job.name) in ground arith

-- Whether or not the job is known, an attempt is counted as retrying exactly as its own end says.
pub process_job-FollowsItself :
    {Work : Type 0} (host : Host)
    → NamesReadable host
    → (registry : JobRegistry Work) (queue_name : Text) (default_timeout_ms : ℕ) (job : Job)
      (signal : Option Signal) (events : List AttemptEvent) (duration : ℕ) (r : Exec Json)
    → process_job host registry queue_name default_timeout_ms job signal events duration ≡ some r
    → FollowsRace host job r r.0
unfolding process_job
process_job-FollowsItself host readable registry queue_name default_timeout_ms job signal events
      duration r h =
    elim (Option-cases (registry_get registry job.name)) [
      | inl e ↦
          subst (λ x. FollowsRace host job x x.0) (some-eq-some (rw e at h))
            (unknown-FollowsItself host queue_name job)
      | inr (entry, e) ↦
          let (end, _, follows) =
            process_job-FollowsRace host readable registry queue_name default_timeout_ms job signal
              events duration entry e r h in
          let (same, retry) = follows in rw same (refl, retry)
    ]

settled-is_some :
    {Work : Type 0} (host : Host) (labels : Labels) (job : Job) (duration : ℕ)
    (i : Completion (Invoked Work)) (end : Option RaceResult)
    → is_some end ≡ true
    → is_some (settle_attempt host labels job duration i end) ≡ true
unfolding settle_attempt
settled-is_some host labels job duration i none h = cc
settled-is_some host labels job duration i (some end) h = refl

called-ends :
    {Work : Type 0} (i : Completion (Invoked Work)) (events : List AttemptEvent)
    → any ends events ≡ true
    → any ends (events_of i events) ≡ true
called-ends (normal i) events h = h
called-ends (throw v) events h = refl

run_entry-ends :
    {Work : Type 0} (host : Host) (queue_name : Text) (default_timeout_ms : ℕ) (job : Job)
    (signal : Option Signal) (events : List AttemptEvent) (duration : ℕ)
    (entry : RegisteredJob Work)
    → any ends events ≡ true
    → is_some (run_entry host queue_name default_timeout_ms job signal events duration entry) ≡ true
unfolding run_entry
run_entry-ends host queue_name default_timeout_ms job signal events duration entry h =
    let i = entry.invoke job.stored (λ meta. attempt_of job) in
    let timeout_ms = or_else entry.definition.timeout_ms default_timeout_ms in
    settled-is_some host _ job duration i _
      (race_with_abort-ends host signal timeout_ms (events_of i events) (called-ends i events h))

-- Whether or not the job is known and its data are valid, and whatever BullMQ does to its signal:
-- once the processor's promise has settled or the deadline has passed, the attempt has ended.
pub process_job-ends :
    {Work : Type 0} (host : Host) (registry : JobRegistry Work) (queue_name : Text)
    (default_timeout_ms : ℕ) (job : Job) (signal : Option Signal) (events : List AttemptEvent)
    (duration : ℕ)
    → any ends events ≡ true
    → is_some (process_job host registry queue_name default_timeout_ms job signal events duration)
      ≡ true
unfolding process_job
process_job-ends host registry queue_name default_timeout_ms job signal events duration h =
    elim (Option-cases (registry_get registry job.name)) [
      | inl e ↦ rw e refl
      | inr (entry, e) ↦
          rw e
            (run_entry-ends host queue_name default_timeout_ms job signal events duration entry h)
    ]
