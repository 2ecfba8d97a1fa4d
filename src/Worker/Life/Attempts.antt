-- ===== src/Worker/Life/Attempts.antt =====
-- What each attempt of a life adds to the counters and to the dead-letter queue.
use queue_worker_kit.Prelude.{
  ℕ, ◌-◌, ◌≤◌, ◌≡◌, refl, arith, length, drop, total, leb, ◌<◌, Text, text_eq, List, [], true,
  false, Bool-cases, is_some, inl, inr,
}
use queue_worker_kit.Config.Defaults.{dead_letter}
use queue_worker_kit.Values.{Value, normal, throw, Host}
use queue_worker_kit.Errors.{
  ErrorClassification, non_retryable_class, retryable_class, classify_error,
}
use queue_worker_kit.Errors.Laws.{
  NamesReadable, OwnNames, classify_error-total, non_retryable-is_unrecoverable,
  retryable-is_unrecoverable,
}
use queue_worker_kit.Json.{Json}
use queue_worker_kit.Jobs.Types.{Zod}
use queue_worker_kit.Observability.Effects.{Effect, Exec}
use queue_worker_kit.Worker.Processor.{Job, attempt_of, attempts_allowed}
use queue_worker_kit.Worker.Processor.Laws.{tally, IsAccounted}
use queue_worker_kit.Worker.Processor.Outcome.{WillRetry, FollowsRace}
use queue_worker_kit.Worker.DeadLetter.{DeadLetterQueue, DeadLetterRecord, make_record, record_id}
use queue_worker_kit.Worker.DeadLetter.Laws.{
  Entries, added, counted, IsWorking, record_failure-keeps_newest,
}
use queue_worker_kit.Worker.Create.{dead_letter_input, is_terminal_failure, on_event}
use queue_worker_kit.Worker.Life.{Broker, BrokerLaws, reported}

-- How many attempts were counted as completed, as failed and as retrying.
abbrev pub completions : List (Exec Json) → ℕ
completions = total λ r. (tally r.1).completed

abbrev pub failures : List (Exec Json) → ℕ
failures = total λ r. (tally r.1).failed

abbrev pub retries : List (Exec Json) → ℕ
retries = total λ r. (tally r.1).retrying

-- The newest entries once a record has been added under its id.
abbrev pub kept_newest : ℕ → Text → DeadLetterRecord → Entries → Entries
kept_newest max_entries id rec es = let all = added id rec es in drop (length all - max_entries) all

module _ (zod : Zod) (host : Host) (max_entries : ℕ) (queue_name : Text) where
  -- The newest entries once a job that BullMQ gave up has been added to them.
  abbrev pub with_record : Job → Value → ℕ → Entries → Entries
  with_record job v now es =
      let input = dead_letter_input zod queue_name job v in
      kept_newest max_entries (record_id input) (make_record host now input) es

not_one : (n : ℕ) → n ≤ 1 → (n ≡ 1 → ⊥) → n ≡ 0
not_one n bound h = omega arith

never_completed :
    (v : Value) (es : List Effect) → IsAccounted (throw v, es) → (tally es).completed ≡ 0
never_completed v es accounts =
    let once = accounts.settled_once in
    not_one (tally es).completed (omega arith) λ one. cc (accounts.completed_iff.1 one)

-- What a failed attempt adds to the counters.
pub record Failed (r : Exec Json) (again : ℕ) : Type 0 where
  pub no_completion : (tally r.1).completed ≡ 0
  pub failed_once : (tally r.1).failed ≡ 1
  pub retrying : (tally r.1).retrying ≡ again

module _ (host : Host) (fails : Broker) (laws : BrokerLaws host fails) where
  pub kept-left :
      (job : Job) (v : Value)
      → is_some (fails job v).finished_on ≡ false
      → attempt_of job < attempts_allowed job
  kept-left job v kept = elim (Bool-cases (leb (attempts_allowed job) (attempt_of job))) [
    | inl y ↦ let ends = laws.exhausted job v (ground arith) in cc
    | inr n ↦ ground arith
  ]

module _ (host : Host) (readable : NamesReadable host) (own : OwnNames host) (fails : Broker)
    (laws : BrokerLaws host fails) where
  kept-class :
      (job : Job) (v : Value) (c : ErrorClassification)
      → classify_error host v ≡ normal c
      → is_some (fails job v).finished_on ≡ false
      → WillRetry host job (throw v)
  kept-class job v non_retryable_class e kept =
      let ends = laws.gives_up job v (non_retryable-is_unrecoverable host readable own v e) in cc
  kept-class job v retryable_class e kept = (e, kept-left host fails laws job v kept)

  kept-WillRetry :
      (job : Job) (v : Value)
      → is_some (fails job v).finished_on ≡ false
      → WillRetry host job (throw v)
  kept-WillRetry job v kept =
      let (c, e) = classify_error-total host readable v in kept-class job v c e kept

  given_up-final :
      (job : Job) (v : Value)
      → is_some (fails job v).finished_on ≡ true
      → WillRetry host job (throw v)
      → ⊥
  given_up-final job v ends (class, left) =
      let (broker, named) = retryable-is_unrecoverable host readable own v class in
      let none_left = laws.retries job v broker named ends in omega arith

  pub final-Failed :
      (job : Job) (v : Value) (es : List Effect)
      → IsAccounted (throw v, es)
      → FollowsRace host job (throw v, es) (throw v)
      → is_some (fails job v).finished_on ≡ true
      → Failed (throw v, es) 0
  final-Failed job v es accounts follows ends =
      let none_completed = never_completed v es accounts in
      let once = accounts.settled_once in
      let retrying = accounts.retrying_failed in
      record {
        no_completion = none_completed;
        failed_once = omega arith;
        retrying =
            not_one (tally es).retrying (omega arith)
              λ one. given_up-final job v ends (follows.1.0 one);
      }

  pub kept-Failed :
      (job : Job) (v : Value) (es : List Effect)
      → IsAccounted (throw v, es)
      → FollowsRace host job (throw v, es) (throw v)
      → is_some (fails job v).finished_on ≡ false
      → Failed (throw v, es) 1
  kept-Failed job v es accounts follows kept =
      let none_completed = never_completed v es accounts in
      let once = accounts.settled_once in
      record {
        no_completion = none_completed;
        failed_once = omega arith;
        retrying = follows.1.1 (kept-WillRetry job v kept);
      }

module _ {S : Type 0} (zod : Zod) (host : Host) (queue : DeadLetterQueue S) (entries : S → Entries)
    (w : IsWorking queue entries) (max_entries : ℕ) (queue_name : Text)
    (other : text_eq queue_name dead_letter ≡ false) where
  abbrev told : Job → Value → ℕ → S → S × List Effect
  told = reported zod host queue max_entries queue_name

  pub told_final :
      (job : Job) (v : Value) (now : ℕ) (s : S)
      → is_some job.finished_on ≡ true
      → (entries (told job v now s).0
          ≡ with_record zod host max_entries queue_name job v now (entries s))
        × (counted (told job v now s).1 ≡ 1)
  unfolding on_event is_terminal_failure dead_letter_input
  told_final job v now s ends =
      let kept =
        record_failure-keeps_newest queue host max_entries entries w now
          (dead_letter_input zod queue_name job v) s other in
      rw ends (kept.0, kept.1)

  pub told_kept :
      (job : Job) (v : Value) (now : ℕ) (s : S)
      → is_some job.finished_on ≡ false
      → told job v now s ≡ (s, [])
  unfolding on_event is_terminal_failure
  told_kept job v now s kept = rw kept refl
