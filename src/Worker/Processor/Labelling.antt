-- ===== src/Worker/Processor/Labelling.antt =====
-- The labels of what an attempt counts (src/worker/processor.ts).
use queue_worker_kit.Prelude.{
  ℕ, ◌≡◌, refl, subst, Text, List, [], Bool, true, false, Option, none, some, some-eq-some,
  Option-cases, inl, inr,
}
use queue_worker_kit.Values.{Completion, normal, throw, Host, Value}
use queue_worker_kit.Errors.{ErrorClassification, classify_error}
use queue_worker_kit.Json.{Json}
use queue_worker_kit.Jobs.Registry.{Invoked, JobRegistry, registry_get}
use queue_worker_kit.Observability.Effects.{Exec, lift, after, fail, ◌>>=◌}
use queue_worker_kit.Observability.Labels.{is_labelled, AreLabelled, append-AreLabelled}
use queue_worker_kit.Utils.Sleep.{Signal}
use queue_worker_kit.Worker.Race.{AttemptEvent, RaceResult}
use queue_worker_kit.Worker.Processor.{
  Job, attempt_of, process_job, finish, unknown, retried, will_retry, settle_attempt, start_effects,
  is_started,
}

retried-AreLabelled :
    (again : Bool) (queue name : Text)
    → AreLabelled (retried again (record { queue = queue; job_name = some name }))
unfolding retried is_labelled
retried-AreLabelled true queue name = refl
retried-AreLabelled false queue name = refl

classified-AreLabelled :
    (queue name : Text) (job : Job) (v : Value) (c : Completion ErrorClassification)
    → AreLabelled
        (lift c >>= λ class.
          after
            (retried (will_retry job class) (record { queue = queue; job_name = some name }))
            (fail {A = Json} v)).1
classified-AreLabelled queue name job v (throw w) = refl
classified-AreLabelled queue name job v (normal class) =
    append-AreLabelled _ [] (retried-AreLabelled (will_retry job class) queue name) refl

finish-AreLabelled :
    (host : Host) (queue name : Text) (job : Job) (started : Bool) (duration : ℕ)
    (outcome : Completion Json)
    → AreLabelled
        (finish host
          (record { queue = queue; job_name = some name })
          job
          started
          duration
          outcome).1
unfolding finish is_labelled
finish-AreLabelled host queue name job started duration (normal result) = refl
finish-AreLabelled host queue name job true duration (throw v) =
    classified-AreLabelled queue name job v (classify_error host v)
finish-AreLabelled host queue name job false duration (throw v) =
    classified-AreLabelled queue name job v (classify_error host v)

unknown-AreLabelled : (queue_name : Text) (job : Job) → AreLabelled (unknown queue_name job).1
unfolding unknown is_labelled
unknown-AreLabelled queue_name job = refl

module _ {Work : Type 0} where
  start-AreLabelled :
      (queue name : Text) (i : Completion (Invoked Work))
      → AreLabelled (start_effects (record { queue = queue; job_name = some name }) i)
  unfolding start_effects is_labelled
  start-AreLabelled queue name (normal i) = refl
  start-AreLabelled queue name (throw v) = refl

  settle-AreLabelled :
      (host : Host) (queue name : Text) (job : Job) (duration : ℕ) (i : Completion (Invoked Work))
      (end : Option RaceResult) (r : Exec Json)
      → settle_attempt host (record { queue = queue; job_name = some name }) job duration i end
        ≡ some r
      → AreLabelled r.1
  unfolding settle_attempt
  settle-AreLabelled host queue name job duration i none r h = cc
  settle-AreLabelled host queue name job duration i (some end) r h =
      subst (λ (x : Exec Json). AreLabelled x.1) (some-eq-some h)
        (append-AreLabelled _ _ (start-AreLabelled queue name i)
          (finish-AreLabelled host queue name job (is_started i) duration end.outcome))

  pub process_job-AreLabelled :
      (host : Host) (registry : JobRegistry Work) (queue_name : Text) (default_timeout_ms : ℕ)
      (job : Job) (signal : Option Signal) (events : List AttemptEvent) (duration : ℕ)
      (r : Exec Json)
      → process_job host registry queue_name default_timeout_ms job signal events duration ≡ some r
      → AreLabelled r.1
  unfolding process_job
  process_job-AreLabelled host registry queue_name default_timeout_ms job signal events duration r
        h =
      elim (Option-cases (registry_get registry job.name)) [
        | inl e ↦
            subst (λ (x : Exec Json). AreLabelled x.1) (some-eq-some (rw e at h))
              (unknown-AreLabelled queue_name job)
        | inr (entry, e) ↦
            settle-AreLabelled host queue_name entry.definition.name job duration
              (entry.invoke job.stored (λ meta. attempt_of job)) _ r (rw e at h)
      ]
