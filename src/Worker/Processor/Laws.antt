-- ===== src/Worker/Processor/Laws.antt =====
-- What an attempt reports, and what it hands to BullMQ.
use queue_worker_kit.Prelude.{
  ℕ, ◌+◌, ◌≤◌, Text, codes, List, [], ◌∷◌, Bool, true, false, Option, some, some-eq-some, ◌≡◌, ◌↔◌,
  subst, arith, inl, inr, Option-cases,
}
use queue_worker_kit.Values.{Value, Completion, normal, throw, Host}
use queue_worker_kit.Json.{Json}
use queue_worker_kit.Jobs.Registry.{Invoked, JobRegistry, registry_get}
use queue_worker_kit.Observability.Effects.{
  Effect, Counter, Labels, inc, observe_duration, log, info, jobs_started, jobs_completed,
  jobs_failed, jobs_retrying, Exec, after,
}
use queue_worker_kit.Utils.Sleep.{Signal}
use queue_worker_kit.Worker.Race.{AttemptEvent, settles, race_with_abort}
use queue_worker_kit.Worker.Race.Laws.{race_with_abort-rejected}
use queue_worker_kit.Worker.Processor.{
  events_of, Job, attempt_of, process_job, settle_attempt, finish, unknown,
}

-- What one attempt adds to the five counts.
pub record Tally : Type 0 where
  pub started : ℕ
  pub completed : ℕ
  pub failed : ℕ
  pub retrying : ℕ
  pub observed : ℕ

abbrev count_inc : Counter → Tally → Tally
count_inc jobs_started t = record t { started = t.started + 1 }
count_inc jobs_completed t = record t { completed = t.completed + 1 }
count_inc jobs_failed t = record t { failed = t.failed + 1 }
count_inc jobs_retrying t = record t { retrying = t.retrying + 1 }
count_inc _ t = t

abbrev pub tally : List Effect → Tally
tally [] = record { started = 0; completed = 0; failed = 0; retrying = 0; observed = 0 }
tally (inc counter labels ∷ es) = count_inc counter (tally es)
tally (observe_duration labels d ∷ es) = let t = tally es in record t { observed = t.observed + 1 }
tally (_ ∷ es) = tally es

abbrev pub is_normal {ℓ} : {A : Type ℓ} → Completion A → Bool
is_normal (normal a) = true
is_normal (throw v) = false

-- The accounts of one attempt: it completes or fails, once; it completes only if it has started;
-- its duration is observed exactly if it has started; and it is counted as retrying only if it
-- has failed.
pub record IsAccounted (result : Exec Json) : Type 0 where
  pub settled_once : (tally result.1).completed + (tally result.1).failed ≡ 1
  pub completed_iff : (is_normal result.0 ≡ true) ↔ ((tally result.1).completed ≡ 1)
  pub completed_started : (tally result.1).completed ≤ (tally result.1).started
  pub observed_started : (tally result.1).observed ≡ (tally result.1).started
  pub started_once : (tally result.1).started ≤ 1
  pub retrying_failed : (tally result.1).retrying ≤ (tally result.1).failed

IsAccounted-started :
    (host : Host) (labels : Labels) (job : Job) (duration : ℕ) (outcome : Completion Json)
    → IsAccounted (
        after
          (inc jobs_started labels ∷ log info (codes "job started") ∷ [])
          (finish host labels job true duration outcome))
unfolding finish
IsAccounted-started host labels job duration (normal result) = ground arith
IsAccounted-started host labels job duration (throw v) = ground arith

IsAccounted-refused :
    (host : Host) (labels : Labels) (job : Job) (duration : ℕ) (v : Value)
    → IsAccounted (after [] (finish host labels job false duration (throw v)))
unfolding finish
IsAccounted-refused host labels job duration v = ground arith

module _ {Work : Type 0} (host : Host) (registry : JobRegistry Work) (queue_name : Text)
    (default_timeout_ms : ℕ) (job : Job) (signal : Option Signal) (events : List AttemptEvent)
    (duration : ℕ) where
  abbrev result : Option (Exec Json)
  result = process_job host registry queue_name default_timeout_ms job signal events duration

  settle-IsAccounted :
      (labels : Labels) (timeout_ms : ℕ) (invoked : Completion (Invoked Work)) (r : Exec Json)
      → settle_attempt host labels job duration invoked
          (race_with_abort host signal timeout_ms (events_of invoked events))
        ≡ some r
      → IsAccounted r
  unfolding settle_attempt
  settle-IsAccounted labels timeout_ms (normal i) r h =
      elim (Option-cases (race_with_abort host signal timeout_ms events)) [
        | inl e ↦ cc (rw e at h)
        | inr (race, e) ↦
            let same = some-eq-some (rw e at h) in
            subst IsAccounted same (IsAccounted-started host labels job duration race.outcome)
      ]
  settle-IsAccounted labels timeout_ms (throw v) r h =
      elim (Option-cases (race_with_abort host signal timeout_ms (settles (throw v) ∷ []))) [
        | inl e ↦ cc (rw e at h)
        | inr (race, e) ↦
            let (w, thrown, _) = race_with_abort-rejected host signal timeout_ms v race e in
            let same = some-eq-some (rw e at h) in
            subst IsAccounted same (rw thrown (IsAccounted-refused host labels job duration w))
      ]

  IsAccounted-unknown : IsAccounted (unknown queue_name job)
  unfolding unknown
  IsAccounted-unknown = ground arith

  -- Whatever happens to an attempt, once it ends exactly one of completed and failed is counted,
  -- completed if and only if it returned a result; it is counted as started at most once, and
  -- always if it completed; a duration is observed exactly if it was started; and it is counted as
  -- retrying only if it failed, at most once.
  pub process_job-IsAccounted : (r : Exec Json) → result ≡ some r → IsAccounted r
  unfolding process_job
  process_job-IsAccounted r h = elim (Option-cases (registry_get registry job.name)) [
    | inl e ↦ subst IsAccounted (some-eq-some (rw e at h)) IsAccounted-unknown
    | inr (entry, e) ↦
        settle-IsAccounted (record { queue = queue_name; job_name = some entry.definition.name }) _
          (entry.invoke job.stored (λ meta. attempt_of job)) r (rw e at h)
  ]
