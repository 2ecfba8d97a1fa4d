-- ===== src/Worker/DeadLetter.antt =====
-- `createDeadLetterWriter` of src/worker/dead-letter.ts. The dead-letter queue is BullMQ's: its
-- state and its operations are parameters.
pub mod Drain
pub mod Id
pub mod Laws
pub mod Labelling
pub mod Bound
use queue_worker_kit.Prelude.{
  ℕ, ◌-◌, Text, codes, text_eq, leb, take, ◌++◌, List, [], ◌∷◌, Bool, true, false, Option, none,
  some, or_else, if◌then◌else◌,
}
use queue_worker_kit.Config.Defaults.{dead_letter, dead_letter_reason_max_chars}
use queue_worker_kit.Values.{Value, Completion, normal, throw, Host}
use queue_worker_kit.Json.{Json}
use queue_worker_kit.Observability.Effects.{
  Effect, Level, debug, warn, error, inc, log, jobs_dead_lettered, dead_letter_write_failures,
}
use queue_worker_kit.Utils.SerializeError.{
  SerializedError, name_of, message_of, stack_of, code_of, serialize_error, format_error_reason,
}
use queue_worker_kit.Worker.Processor.{Job}
use Id.{dead_letter_job_id}

pub record RecordedError : Type 0 where
  pub name : Text
  pub message : Text
  pub stack : Option Text
  pub code : Option Text

pub record DeadLetterRecord : Type 0 where
  pub source_queue : Text
  pub source_job_id : Text
  pub source_job_name : Text
  pub payload : Json
  pub failed_reason : Text
  pub error : RecordedError
  pub attempts_made : ℕ
  pub correlation_id : Text
  pub failed_at : ℕ

pub record DeadLetterInput : Type 0 where
  pub source_queue : Text
  pub job : Job
  pub thrown : Value
  pub correlation_id : Text
  pub attempts_made : ℕ

-- A call that may throw, on the state of the queue, with its effects.
abbrev pub Action : Type 0 → Type 0 → Type 0
Action S A = S → Completion A × S × List Effect

module _ {S : Type 0} where
  abbrev pub pure : {A : Type 0} → A → Action S A
  pure a s = (normal a, s, [])

  abbrev pub emit : Effect → Action S (Unit {0})
  emit e s = (normal tt, s, e ∷ [])

  abbrev pub continue :
      {A B : Type 0}
      → List Effect
      → Completion A
      → S
      → (A → Action S B)
      → Completion B × S × List Effect
  continue es (normal a) s f = let (r, s', fs) = f a s in (r, s', es ++ fs)
  continue es (throw v) s f = (throw v, s, es)

  infixl 5 ◌>>=◌ ◌>>◌
  abbrev pub ◌>>=◌ : {A B : Type 0} → Action S A → (A → Action S B) → Action S B
  ◌>>=◌ m f s = let (r, s', es) = m s in continue es r s' f

  abbrev pub ◌>>◌ : {A B : Type 0} → Action S A → Action S B → Action S B
  m >> k = m >>= λ _. k

-- BullMQ's operations on the dead-letter queue. A waiting entry is named by its job id.
pub record DeadLetterQueue (S : Type 0) : Type 0 where
  pub add : Text → DeadLetterRecord → S → Completion (Unit {0}) × S
  pub waiting_count : S → Completion ℕ
  pub get_waiting : ℕ → ℕ → S → Completion (List Text)
  pub remove : Text → S → Completion (Unit {0}) × S

unfoldable pub make_record : Host → ℕ → DeadLetterInput → DeadLetterRecord
make_record host now input =
    let serialized = serialize_error host input.thrown 0 in
    record {
      source_queue = input.source_queue;
      source_job_id = or_else input.job.id (codes "unknown");
      source_job_name = input.job.name;
      payload = input.job.stored;
      failed_reason = format_error_reason host input.thrown dead_letter_reason_max_chars;
      error = record {
        name = name_of serialized;
        message = take dead_letter_reason_max_chars (message_of serialized);
        stack = stack_of serialized;
        code = code_of serialized;
      };
      attempts_made = input.attempts_made;
      correlation_id = input.correlation_id;
      failed_at = or_else input.job.finished_on now;
    }

unfoldable pub record_id : DeadLetterInput → Text
record_id input =
    dead_letter_job_id input.source_queue (or_else input.job.id (codes "unknown"))
      input.attempts_made

module _ {S : Type 0} (queue : DeadLetterQueue S) (host : Host) (max_entries : ℕ) where
  add_record : Text → DeadLetterRecord → Action S (Unit {0})
  add_record id rec s = let (r, s') = queue.add id rec s in (r, s', [])

  waiting_count : Action S ℕ
  waiting_count s = (queue.waiting_count s, s, [])

  get_waiting : ℕ → ℕ → Action S (List Text)
  get_waiting from to s = (queue.get_waiting from to s, s, [])

  abbrev pub caught : Completion (Unit {0}) → List Effect
  caught (normal u) = []
  caught (throw v) = log debug (codes "could not evict dead-letter record") ∷ []

  -- Each removal has its own `try`; they are independent, and taken in order here.
  unfoldable pub remove_all : List Text → Action S (Unit {0})
  remove_all [] s = (normal tt, s, [])
  remove_all (id ∷ ids) s =
      let (r, s') = queue.remove id s in
      let (r', s'', es) = remove_all ids s' in (r', s'', caught r ++ es)

  unfoldable pub trim_excess : ℕ → Action S (Unit {0})
  unfolding get_waiting remove_all
  trim_excess waiting = do
    oldest ← get_waiting 0 (waiting - max_entries - 1)
    remove_all oldest
    emit (log warn (codes "dead-letter queue trimmed"))

  unfoldable pub trim : Action S (Unit {0})
  unfolding waiting_count trim_excess
  trim = do
    waiting ← waiting_count
    if leb waiting max_entries then pure tt else trim_excess waiting

  unfoldable pub store_record : ℕ → DeadLetterInput → Action S (Unit {0})
  unfolding add_record
  store_record now input = do
    add_record (record_id input) (make_record host now input)
    emit (
        inc jobs_dead_lettered
          (record { queue = input.source_queue; job_name = some input.job.name }))
    emit (log warn (codes "job moved to dead-letter"))
    trim

  -- The guard against records of the dead-letter queue itself comes first.
  unfoldable pub write : ℕ → DeadLetterInput → Action S (Unit {0})
  unfolding store_record
  write now input =
      if text_eq input.source_queue dead_letter
      then emit (log error (codes "refusing to dead-letter a job from the dead-letter queue"))
      else store_record now input

  abbrev pub after_write : DeadLetterInput → Completion (Unit {0}) → List Effect
  after_write input (normal u) = []
  after_write input (throw v) =
      inc dead_letter_write_failures (record { queue = input.source_queue; job_name = none })
      ∷ log error (codes "failed to write dead-letter record")
      ∷ []

  -- `write(input).catch(…)`: the error is counted and logged, and not rethrown.
  unfoldable pub record_failure : ℕ → DeadLetterInput → Action S (Unit {0})
  record_failure now input s =
      let (r, s', es) = write now input s in (normal tt, s', es ++ after_write input r)
