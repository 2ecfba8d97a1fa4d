-- ===== src/Worker/Processor/Outcome.antt =====
-- What an attempt hands to BullMQ, and when it is counted as retrying.
use queue_worker_kit.Prelude.{
  ℕ, ◌<◌, Text, List, ◌∷◌, Bool, true, false, Option, some, some-eq-some, or_else, ◌≡◌, ◌↔◌, subst,
  arith, inl, inr, Option-cases,
}
use queue_worker_kit.Values.{
  Value, kit, job_timeout, kit_non_retryable, Completion, normal, throw, Host,
}
use queue_worker_kit.Errors.{
  ErrorClassification, non_retryable_class, retryable_class, classify_error,
}
use queue_worker_kit.Errors.Laws.{NamesReadable, classify_error-total, classify_error-kit}
use queue_worker_kit.Json.{Json}
use queue_worker_kit.Jobs.Registry.{Invoked, RegisteredJob, JobRegistry, registry_get}
use queue_worker_kit.Observability.Effects.{Labels, Exec}
use queue_worker_kit.Utils.Sleep.{Signal}
use queue_worker_kit.Worker.Race.{AttemptEvent, deadline, RaceResult, race_with_abort}
use queue_worker_kit.Worker.Race.Laws.{race_with_abort-deadline, is_aborted}
use queue_worker_kit.Worker.Processor.{
  Job, attempt_of, attempts_allowed, process_job, settle_attempt, finish, events_of,
}
use queue_worker_kit.Worker.Processor.Laws.{tally}

-- The attempt fails with an error that may pass, and attempts are left.
abbrev pub WillRetry : Host → Job → Completion Json → Type 0
WillRetry host job (normal result) = ⊥
WillRetry host job (throw v) =
    (classify_error host v ≡ normal retryable_class) × (attempt_of job < attempts_allowed job)

-- The result is that of the race, and a retry is counted exactly if there will be one.
abbrev pub FollowsRace : Host → Job → Exec Json → Completion Json → Type 0
FollowsRace host job r outcome =
    (r.0 ≡ outcome) × (((tally r.1).retrying ≡ 1) ↔ WillRetry host job outcome)

thrown-FollowsRace :
    (host : Host) (labels : Labels) (job : Job) (started : Bool) (duration : ℕ) (v : Value)
    (c : ErrorClassification)
    → classify_error host v ≡ normal c
    → FollowsRace host job (finish host labels job started duration (throw v)) (throw v)
unfolding finish
thrown-FollowsRace host labels job started duration v non_retryable_class e = rw e (ground arith)
thrown-FollowsRace host labels job started duration v retryable_class e = rw e (ground arith)

finish-FollowsRace :
    (host : Host) (labels : Labels) (job : Job) (started : Bool) (duration : ℕ)
    (outcome : Completion Json)
    → NamesReadable host
    → FollowsRace host job (finish host labels job started duration outcome) outcome
unfolding finish
finish-FollowsRace host labels job started duration (normal result) readable = ground arith
finish-FollowsRace host labels job started duration (throw v) readable =
    let (c, e) = classify_error-total host readable v in
    thrown-FollowsRace host labels job started duration v c e

timeout_retryable :
    (host : Host) (ms : ℕ) → classify_error host (kit (job_timeout ms)) ≡ normal retryable_class
unfolding kit_non_retryable
timeout_retryable host ms = classify_error-kit host (job_timeout ms)

module _ {Work : Type 0} (host : Host) (readable : NamesReadable host) (registry : JobRegistry Work)
    (queue_name : Text) (default_timeout_ms : ℕ) (job : Job) (signal : Option Signal)
    (events : List AttemptEvent) (duration : ℕ) (entry : RegisteredJob Work)
    (known : registry_get registry job.name ≡ some entry) where
  abbrev result : Option (Exec Json)
  result = process_job host registry queue_name default_timeout_ms job signal events duration

  abbrev invoked : Completion (Invoked Work)
  invoked = entry.invoke job.stored (λ meta. attempt_of job)

  abbrev timeout_ms : ℕ
  timeout_ms = or_else entry.definition.timeout_ms default_timeout_ms

  abbrev race : Option RaceResult
  race = race_with_abort host signal timeout_ms (events_of invoked events)

  settle-FollowsRace :
      (labels : Labels) (i : Completion (Invoked Work)) (end : RaceResult) (r : Exec Json)
      → settle_attempt host labels job duration i (some end) ≡ some r
      → FollowsRace host job r end.outcome
  unfolding settle_attempt
  settle-FollowsRace labels (normal i) end r h =
      subst (λ x. FollowsRace host job x end.outcome) (some-eq-some h)
        (finish-FollowsRace host labels job true duration end.outcome readable)
  settle-FollowsRace labels (throw v) end r h =
      subst (λ x. FollowsRace host job x end.outcome) (some-eq-some h)
        (finish-FollowsRace host labels job false duration end.outcome readable)

  -- Where no getter of an object's `name` throws, an attempt at a known job ends exactly as its race
  -- does, with the processor's result, its error or the abort's, unchanged; it is counted as
  -- retrying exactly if that error is classified as retryable and the attempt is not the last one
  -- allowed.
  pub process_job-FollowsRace :
      (r : Exec Json)
      → result ≡ some r
      → (end : RaceResult) × (race ≡ some end) × FollowsRace host job r end.outcome
  unfolding process_job
  process_job-FollowsRace r h =
      let labels : Labels = record { queue = queue_name; job_name = some entry.definition.name } in
      elim (Option-cases race) [
        | inl e ↦ cc (rw (known, e) at h)
        | inr (end, e) ↦ (end, e, settle-FollowsRace labels invoked end r (rw (known, e) at h))
      ]

  -- If the deadline of a called processor passes before anything else, the attempt fails with a
  -- timeout error that names the deadline of the definition, or else the default; it is counted
  -- as retrying exactly if the attempt is not the last one allowed.
  pub process_job-deadline :
      (i : Invoked Work) (later : List AttemptEvent) (r : Exec Json)
      → invoked ≡ normal i
      → is_aborted signal ≡ false
      → events ≡ deadline ∷ later
      → result ≡ some r
      → (r.0 ≡ throw (kit (job_timeout timeout_ms)))
        × (((tally r.1).retrying ≡ 1) ↔ (attempt_of job < attempts_allowed job))
  process_job-deadline i later r called live first h =
      let (end, ended, follows) = process_job-FollowsRace r h in
      let timed_out : end.outcome ≡ throw (kit (job_timeout timeout_ms)) =
        race_with_abort-deadline host signal timeout_ms later end live
          (rw (called, first) at ended) in
      let (same, retry) = rw timed_out at follows in
      (same, (λ one. (retry.0 one).1, λ left. retry.1 (timeout_retryable host timeout_ms, left)))
