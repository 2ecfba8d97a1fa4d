-- ===== src/Worker/Life.antt =====
-- The whole life of a job in a worker: BullMQ calls the processor (src/worker/processor.ts) again
-- until the job completes or is failed for good, and tells the listener of each failure
-- (src/worker/create-worker.ts). BullMQ's decision after a failed attempt is a parameter.
pub mod Attempts
pub mod Laws
use mathlib.Core.Option
use queue_worker_kit.Prelude.{
  ℕ, ◌≤◌, ◌≡◌, Text, codes, List, [], ◌∷◌, ◌++◌, Bool, true, false, Option, none, some, is_some,
}
use queue_worker_kit.Values.{Value, str, normal, throw, Host}
use queue_worker_kit.Errors.Laws.{is_unrecoverable, name_of}
use queue_worker_kit.Json.{Json}
use queue_worker_kit.Jobs.Types.{Zod}
use queue_worker_kit.Jobs.Registry.{JobRegistry}
use queue_worker_kit.Observability.Effects.{Effect, Exec}
use queue_worker_kit.Utils.Sleep.{Signal}
use queue_worker_kit.Worker.Race.{AttemptEvent}
use queue_worker_kit.Worker.Processor.{Job, attempt_of, attempts_allowed, process_job}
use queue_worker_kit.Worker.DeadLetter.{DeadLetterQueue}
use queue_worker_kit.Worker.Create.{on_event, failed}

-- What BullMQ makes of a job when an attempt at it has failed with an error: it waits for another
-- attempt, or is finished.
abbrev pub Broker : Type 0
Broker = Job → Value → Job

-- What BullMQ documents of it. A failed attempt is counted, and the job stays the same otherwise.
-- It is finished once no attempt is left, and at once by an `UnrecoverableError`. Any other error,
-- unless it goes by that name, finishes it only when no attempt is left.
pub record BrokerLaws (host : Host) (fails : Broker) : Type 0 where
  pub counts : (job : Job) (v : Value) → (fails job v).attempts_made ≡ attempt_of job
  pub keeps_name : (job : Job) (v : Value) → (fails job v).name ≡ job.name
  pub keeps_data : (job : Job) (v : Value) → (fails job v).stored ≡ job.stored
  pub keeps_attempts : (job : Job) (v : Value) → (fails job v).attempts ≡ job.attempts
  pub gives_up :
      (job : Job) (v : Value)
      → is_unrecoverable host v ≡ true
      → is_some (fails job v).finished_on ≡ true
  pub exhausted :
      (job : Job) (v : Value)
      → attempts_allowed job ≤ attempt_of job
      → is_some (fails job v).finished_on ≡ true
  pub retries :
      (job : Job) (v : Value)
      → is_unrecoverable host v ≡ false
      → (name_of host v ≡ normal (str (codes "UnrecoverableError")) → ⊥)
      → is_some (fails job v).finished_on ≡ true
      → attempts_allowed job ≤ attempt_of job

-- What happens during one attempt, and the clock when BullMQ reports its failure.
pub record Attempt : Type 0 where
  pub signal : Option Signal
  pub events : List AttemptEvent
  pub duration : ℕ
  pub now : ℕ

-- How a life ends: with the job's result, or with the finished job, its last error, and the clock.
pub data Ending : Type 0 where
  completed : Json → Ending
  given_up : Job → Value → ℕ → Ending

-- The results of the attempts, the listener's effects, and the dead-letter queue at the end.
pub record Life (S : Type 0) : Type 0 where
  pub results : List (Exec Json)
  pub ending : Ending
  pub reported : List Effect
  pub state : S

module _ {S : Type 0} where
  abbrev pub preceded : Exec Json → List Effect → Life S → Life S
  preceded r es l = record l { results = r ∷ l.results; reported = es ++ l.reported }

  -- After a failure: the end, or the rest of the life.
  abbrev pub go_on :
      Exec Json → List Effect → Job → Value → ℕ → S → Option (Life S) → Bool → Option (Life S)
  go_on r es job v now s rest true =
      some (record { results = r ∷ []; ending = given_up job v now; reported = es; state = s })
  go_on r es job v now s rest false = Option.map (preceded r es) rest

  abbrev pub reported :
      Zod → Host → DeadLetterQueue S → ℕ → Text → Job → Value → ℕ → S → S × List Effect
  reported zod host queue max_entries queue_name job v now s =
      on_event zod host queue max_entries queue_name now (failed (some job) v) s

module _ {Work S : Type 0} (zod : Zod) (host : Host) (registry : JobRegistry Work)
    (queue : DeadLetterQueue S) (max_entries : ℕ) (queue_name : Text) (default_timeout_ms : ℕ)
    (fails : Broker) where
  abbrev pub after_attempt :
      Job → ℕ → S → (Job → S → Option (Life S)) → Option (Exec Json) → Option (Life S)
  after_attempt job now s rest none = none
  after_attempt job now s rest (some (normal v, es)) =
      some
        (record { results = (normal v, es) ∷ []; ending = completed v; reported = []; state = s })
  after_attempt job now s rest (some (throw v, es)) =
      let next = fails job v in
      let (s', told) = reported zod host queue max_entries queue_name next v now s in
      go_on (throw v, es) told next v now s' (rest next s') (is_some next.finished_on)

  -- No result means that the job has not ended with these attempts.
  abbrev pub live : Job → List Attempt → S → Option (Life S)
  live job [] s = none
  live job (a ∷ later) s =
      after_attempt job a.now s (λ next s'. live next later s')
        (process_job host registry queue_name default_timeout_ms job a.signal a.events a.duration)
