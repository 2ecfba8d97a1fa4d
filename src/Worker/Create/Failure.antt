-- ===== src/Worker/Create/Failure.antt =====
-- From a failed attempt (src/worker/processor.ts) through the worker's listener
-- (src/worker/create-worker.ts) to the dead-letter record (src/worker/dead-letter.ts).
use queue_worker_kit.Prelude.{
  ℕ, ◌≡◌, refl, ◌∙◌, length, ◌-◌, ◌+◌, ◌≤◌, drop, Text, text_eq, List, ◌∷◌, true, false, Option,
  some, is_some, arith,
}
use queue_worker_kit.Config.Defaults.{dead_letter, dead_letter_reason_max_chars}
use queue_worker_kit.Values.{Value, normal, throw, Host}
use queue_worker_kit.Errors.{non_retryable_class, classify_error}
use queue_worker_kit.Errors.Laws.{NamesReadable}
use queue_worker_kit.Json.{Json}
use queue_worker_kit.Jobs.Types.{Zod, ZodLaws, IsValidMeta, JobEnvelope, envelope_json}
use queue_worker_kit.Jobs.Registry.{Invoked, RegisteredJob, JobRegistry, registry_get}
use queue_worker_kit.Observability.Effects.{Exec}
use queue_worker_kit.Utils.SerializeError.{format_error_reason}
use queue_worker_kit.Utils.Sleep.{Signal}
use queue_worker_kit.Worker.Race.{AttemptEvent, settles}
use queue_worker_kit.Worker.Race.Laws.{is_aborted, race_with_abort-settles}
use queue_worker_kit.Worker.Processor.{Job, attempt_of, process_job}
use queue_worker_kit.Worker.Processor.Laws.{Tally, tally, process_job-IsAccounted}
use queue_worker_kit.Worker.Processor.Outcome.{WillRetry, process_job-FollowsRace}
use queue_worker_kit.Worker.DeadLetter.{DeadLetterRecord, DeadLetterQueue, make_record, record_id}
use queue_worker_kit.Worker.DeadLetter.Laws.{Entries, added, IsWorking, record_failure-keeps_newest}
use queue_worker_kit.Worker.Create.{dead_letter_input, is_terminal_failure, failed, on_event}
use queue_worker_kit.Worker.Create.Laws.{correlation_id_of-envelope}

-- The record of a failure names the job, carries its whole envelope, is filed under the
-- envelope's correlation id, and gives the error as its reason.
pub record IsFiled (host : Host) (queue_name : Text) (e : JobEnvelope) (job : Job) (v : Value)
    (rec : DeadLetterRecord) : Type 0 where
  pub source_queue : rec.source_queue ≡ queue_name
  pub source_job_name : rec.source_job_name ≡ job.name
  pub payload : rec.payload ≡ envelope_json e
  pub correlation_id : rec.correlation_id ≡ e.meta.correlation_id
  pub attempts_made : rec.attempts_made ≡ attempt_of job
  pub failed_reason : rec.failed_reason ≡ format_error_reason host v dead_letter_reason_max_chars

-- The job that BullMQ reports once it has moved it to failed for good.
pub record IsFailedFor (job ended : Job) : Type 0 where
  pub name : ended.name ≡ job.name
  pub stored : ended.stored ≡ job.stored
  pub attempts_made : ended.attempts_made ≡ attempt_of job
  pub finished : is_some ended.finished_on ≡ true

make_record-IsFiled :
    (zod : Zod) (laws : ZodLaws zod) (host : Host) (queue_name : Text) (e : JobEnvelope)
    (valid : IsValidMeta zod e.meta) (job ended : Job) (v : Value) (now : ℕ)
    → job.stored ≡ envelope_json e
    → IsFailedFor job ended
    → IsFiled host queue_name e job v
        (make_record host now (dead_letter_input zod queue_name ended v))
unfolding make_record dead_letter_input
make_record-IsFiled zod laws host queue_name e valid job ended v now stored moved = record {
  source_queue = refl;
  source_job_name = moved.name;
  payload = moved.stored ∙ stored;
  correlation_id = correlation_id_of-envelope zod laws e valid ended (moved.stored ∙ stored);
  attempts_made = moved.attempts_made;
  failed_reason = refl;
}

never_retried :
    (host : Host) (job : Job) (v : Value)
    → classify_error host v ≡ normal non_retryable_class
    → WillRetry host job (throw v)
    → ⊥
never_retried host job v class h = cc

not_retried :
    (t : Tally)
    → t.completed + t.failed ≡ 1
    → t.retrying ≤ t.failed
    → (t.retrying ≡ 1 → ⊥)
    → t.retrying ≡ 0
not_retried t one bound not_one = omega arith

module _ {Work S : Type 0} (zod : Zod) (laws : ZodLaws zod) (host : Host)
    (readable : NamesReadable host) (registry : JobRegistry Work) (queue : DeadLetterQueue S)
    (entries : S → Entries) (w : IsWorking queue entries) (max_entries : ℕ) (queue_name : Text)
    (other : text_eq queue_name dead_letter ≡ false) where
  -- The processor of an attempt settles first, before any abort, with an error that is not retried.
  -- Then the attempt fails with that error and is not counted as retrying, however many attempts
  -- are left. Once BullMQ reports the job as failed for good, on a dead-letter queue that answers
  -- and that is not the job's own, a record is added (unchanged if its id was there) that names the
  -- job, carries its whole envelope, is filed under the envelope's correlation id and gives the
  -- error as its reason; the newest `max_entries` records are left.
  pub process_job-dead_letters :
      (entry : RegisteredJob Work) (default_timeout_ms : ℕ) (e : JobEnvelope) (job ended : Job)
      (signal : Option Signal) (later : List AttemptEvent) (duration now : ℕ) (v : Value)
      (i : Invoked Work) (r : Exec Json) (s : S)
      → registry_get registry job.name ≡ some entry
      → IsValidMeta zod e.meta
      → job.stored ≡ envelope_json e
      → entry.invoke job.stored (λ meta. attempt_of job) ≡ normal i
      → is_aborted signal ≡ false
      → classify_error host v ≡ normal non_retryable_class
      → process_job host registry queue_name default_timeout_ms job signal
          (settles (throw v) ∷ later)
          duration
        ≡ some r
      → IsFailedFor job ended
      → (r.0 ≡ throw v)
        × (tally r.1).retrying ≡ 0
        × ((rec : DeadLetterRecord) × IsFiled host queue_name e job v rec
            × let all =
                added (record_id (dead_letter_input zod queue_name ended v)) rec (entries s) in
              entries
                (on_event zod host queue max_entries queue_name now (failed (some ended) v) s).0
              ≡ drop (length all - max_entries) all)
  unfolding on_event is_terminal_failure dead_letter_input
  process_job-dead_letters entry default_timeout_ms e job ended signal later duration now v i r s
        known valid stored called live class h moved =
      let (end, ended_by, follows) =
        process_job-FollowsRace host readable registry queue_name default_timeout_ms job signal
          (settles (throw v) ∷ later) duration entry known r h in
      let ends : end.outcome ≡ throw v =
        race_with_abort-settles host signal _ (throw v) later end live (rw called at ended_by) in
      let (same, retry) = rw ends at follows in
      let accounts =
        process_job-IsAccounted host registry queue_name default_timeout_ms job signal
          (settles (throw v) ∷ later) duration r h in
      (
        same,
        not_retried (tally r.1) accounts.settled_once accounts.retrying_failed
            (λ one. never_retried host job v class (retry.0 one)),
        (
          make_record host now (dead_letter_input zod queue_name ended v),
          make_record-IsFiled zod laws host queue_name e valid job ended v now stored moved,
          rw moved.finished
              (record_failure-keeps_newest queue host max_entries entries w now
                (dead_letter_input zod queue_name ended v) s other).0,
        ),
      )
