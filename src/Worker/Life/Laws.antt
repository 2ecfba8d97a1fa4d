-- ===== src/Worker/Life/Laws.antt =====
-- What a whole life adds to the counters, and what it leaves in the dead-letter queue.
use mathlib.Core.Option
use queue_worker_kit.Prelude.{
  ℕ, suc, ◌+◌, ◌≤◌, ◌≡◌, refl, ◌∙◌, subst, arith, length, Text, text_eq, List, [], ◌∷◌, true, false,
  Bool-cases, Option, Option-cases, none, some, some-eq-some, is_some, inl, inr,
}
use queue_worker_kit.Config.Defaults.{dead_letter}
use queue_worker_kit.Values.{Value, normal, throw, Host}
use queue_worker_kit.Errors.Laws.{NamesReadable, OwnNames}
use queue_worker_kit.Json.{Json}
use queue_worker_kit.Jobs.Types.{Zod}
use queue_worker_kit.Jobs.Registry.{JobRegistry}
use queue_worker_kit.Observability.Effects.{Effect, Exec}
use queue_worker_kit.Worker.Processor.{Job, attempt_of, attempts_allowed, process_job}
use queue_worker_kit.Worker.Processor.Laws.{IsAccounted, process_job-IsAccounted}
use queue_worker_kit.Worker.Processor.Outcome.{FollowsRace}
use queue_worker_kit.Worker.Processor.Ends.{process_job-FollowsItself}
use queue_worker_kit.Worker.DeadLetter.{DeadLetterQueue, DeadLetterRecord, make_record, record_id}
use queue_worker_kit.Worker.DeadLetter.Laws.{Entries, counted, IsWorking}
use queue_worker_kit.Worker.Create.{dead_letter_input}
use queue_worker_kit.Worker.Life.{
  Broker, BrokerLaws, Attempt, Ending, completed, given_up, Life, preceded, reported, after_attempt,
  live,
}
use queue_worker_kit.Worker.Life.Attempts.{
  completions, failures, retries, kept_newest, Failed, kept-left, final-Failed, kept-Failed,
  told_final, told_kept,
}

module _ {S : Type 0} (zod : Zod) (host : Host) (entries : S → Entries) (max_entries : ℕ)
    (queue_name : Text) where
  -- A job that completed leaves the dead-letter queue as it was. One that was given up is recorded
  -- there, once, with its data and the number of its attempts.
  abbrev pub IsRecorded : Job → S → Life S → Ending → Type 0
  IsRecorded job s l (completed v) = (completions l.results ≡ 1) × (l.reported ≡ []) × (l.state ≡ s)
  IsRecorded job s l (given_up ended v now) =
      (completions l.results ≡ 0)
      × (counted l.reported ≡ 1)
      × ((rec : DeadLetterRecord) × (rec.source_queue ≡ queue_name)
          × (rec.source_job_name ≡ job.name)
          × (rec.payload ≡ job.stored)
          × (rec.attempts_made ≡ job.attempts_made + length l.results)
          × (entries l.state
              ≡ kept_newest max_entries (record_id (dead_letter_input zod queue_name ended v)) rec
                  (entries s)))

  pub record IsSettled (job : Job) (s : S) (l : Life S) : Type 0 where
    pub settled_each : completions l.results + failures l.results ≡ length l.results
    pub retried : suc (retries l.results) ≡ length l.results
    pub within : job.attempts_made + length l.results ≤ attempts_allowed job
    pub recorded : IsRecorded job s l l.ending

module _ {Work S : Type 0} (zod : Zod) (host : Host) (readable : NamesReadable host)
    (own : OwnNames host) (registry : JobRegistry Work) (queue : DeadLetterQueue S)
    (entries : S → Entries) (w : IsWorking queue entries) (max_entries : ℕ) (queue_name : Text)
    (other : text_eq queue_name dead_letter ≡ false) (default_timeout_ms : ℕ) (fails : Broker)
    (laws : BrokerLaws host fails) where
  abbrev told : Job → Value → ℕ → S → S × List Effect
  told = reported zod host queue max_entries queue_name

  abbrev Settled : Job → S → Life S → Type 0
  Settled = IsSettled zod host entries max_entries queue_name

  completed-IsSettled :
      (job : Job) (s : S) (v : Json) (es : List Effect)
      → attempt_of job ≤ attempts_allowed job
      → IsAccounted (normal v, es)
      → Settled job s
          (record { results = (normal v, es) ∷ []; ending = completed v; reported = []; state = s })
  completed-IsSettled job s v es left accounts =
      let one = accounts.completed_iff.0 refl in
      let once = accounts.settled_once in
      let retrying = accounts.retrying_failed in
      record {
        settled_each = omega arith;
        retried = omega arith;
        within = omega arith;
        recorded = (omega arith, refl, refl);
      }

  abbrev Lives : Type 0
  Lives = Job → S → Option (Life S)

  -- The rest of a life does what is claimed of it.
  abbrev Continues : Lives → Type 0
  Continues rest =
      (job : Job) (s : S) (l : Life S)
      → attempt_of job ≤ attempts_allowed job
      → rest job s ≡ some l
      → Settled job s l

  abbrev continued : Job → ℕ → S → Lives → Option (Exec Json) → Option (Life S)
  continued = after_attempt zod host registry queue max_entries queue_name default_timeout_ms fails

  final-IsSettled :
      (job : Job) (v : Value) (es : List Effect) (now : ℕ) (s : S)
      → attempt_of job ≤ attempts_allowed job
      → Failed (throw v, es) 0
      → is_some (fails job v).finished_on ≡ true
      → Settled job s (record {
        results = (throw v, es) ∷ [];
        ending = given_up (fails job v) v now;
        reported = (told (fails job v) v now s).1;
        state = (told (fails job v) v now s).0;
      })
  unfolding make_record dead_letter_input
  final-IsSettled job v es now s left f ends =
      let (kept, once) =
        told_final zod host queue entries w max_entries queue_name other (fails job v) v now s
          ends in
      let none_completed = f.no_completion in
      let one = f.failed_once in
      let again = f.retrying in
      let made = laws.counts job v in
      record {
        settled_each = omega arith;
        retried = omega arith;
        within = omega arith;
        recorded = (
          omega arith,
          once,
          (
            make_record host now (dead_letter_input zod queue_name (fails job v) v),
            refl,
            laws.keeps_name job v,
            laws.keeps_data job v,
            omega arith,
            kept,
          ),
        );
      }

  kept-IsRecorded :
      (job : Job) (v : Value) (es : List Effect) (s : S) (l : Life S) (ending : Ending)
      → Failed (throw v, es) 1
      → IsRecorded zod host entries max_entries queue_name (fails job v) s l ending
      → IsRecorded zod host entries max_entries queue_name job s
          (preceded (throw v, es) [] l)
          ending
  kept-IsRecorded job v es s l (completed x) f (one, silent, same) =
      let none_completed = f.no_completion in (omega arith, silent, same)
  kept-IsRecorded job v es s l (given_up ended x now) f
        (none_more, once, (rec, source, name, stored, made, kept)) =
      let none_completed = f.no_completion in
      let counted_one = laws.counts job v in
      (
        omega arith,
        once,
        (
          rec,
          source,
          name ∙ laws.keeps_name job v,
          stored ∙ laws.keeps_data job v,
          omega arith,
          kept,
        ),
      )

  kept-IsSettled :
      (job : Job) (v : Value) (es : List Effect) (s : S) (l : Life S)
      → Failed (throw v, es) 1
      → Settled (fails job v) s l
      → Settled job s (preceded (throw v, es) [] l)
  kept-IsSettled job v es s l f rest =
      let none_completed = f.no_completion in
      let one = f.failed_once in
      let again = f.retrying in
      let made = laws.counts job v in
      let same = laws.keeps_attempts job v in
      let settled = rest.settled_each in
      let retried = rest.retried in
      let within = rw same at rest.within in
      record {
        settled_each = omega arith;
        retried = omega arith;
        within = omega arith;
        recorded = kept-IsRecorded job v es s l l.ending f rest.recorded;
      }

  kept-continues :
      (job : Job) (v : Value) (es : List Effect) (s : S) (rest : Option (Life S)) (l : Life S)
      → Failed (throw v, es) 1
      → ((l' : Life S) → rest ≡ some l' → Settled (fails job v) s l')
      → Option.map (preceded (throw v, es) []) rest ≡ some l
      → Settled job s l
  kept-continues job v es s none l f later h = cc
  kept-continues job v es s (some l') l f later h =
      subst (Settled job s) (some-eq-some h) (kept-IsSettled job v es s l' f (later l' refl))

  continued-IsSettled :
      (job : Job) (now : ℕ) (s : S) (rest : Lives) (r : Exec Json) (l : Life S)
      → attempt_of job ≤ attempts_allowed job
      → IsAccounted r
      → FollowsRace host job r r.0
      → Continues rest
      → continued job now s rest (some r) ≡ some l
      → Settled job s l
  continued-IsSettled job now s rest (normal v, es) l left accounts follows later h =
      subst (Settled job s) (some-eq-some h) (completed-IsSettled job s v es left accounts)
  continued-IsSettled job now s rest (throw v, es) l left accounts follows later h =
      elim (Bool-cases (is_some (fails job v).finished_on)) [
        | inl y ↦ subst (Settled job s) (some-eq-some (rw y at h)) (
            final-IsSettled job v es now s left
              (final-Failed host readable own fails laws job v es accounts follows y) y)
        | inr n ↦
            let more : attempt_of (fails job v) ≤ attempts_allowed (fails job v) =
              rw (laws.counts job v, laws.keeps_attempts job v)
                (let more = kept-left host fails laws job v n in omega arith) in
            kept-continues job v es s (rest (fails job v) s) l
              (kept-Failed host readable own fails laws job v es accounts follows n)
              (λ l' e. later (fails job v) s l' more e)
              (rw
                (
                  n,
                  told_kept zod host queue entries w max_entries queue_name other (fails job v) v
                      now s n,
                )
                at h)
      ]

  -- A job starts with an attempt left. BullMQ calls the processor again until the job completes or
  -- is finished: it counts each failed attempt and keeps the job's name, data and allowance, gives
  -- a job up once no attempt is left or on an `UnrecoverableError`, and retries any other error
  -- while attempts are left. The dead-letter queue answers and is not the job's own; no getter of
  -- a `name` throws, and no object of another class goes by the name of a non-retryable error.
  -- However the attempts go, once the life has ended: each attempt was counted either as completed
  -- or as failed, each but the last as retrying, and there were no more of them than the job is
  -- allowed. If the job completed, one attempt was counted as completed, the listener did nothing
  -- and the dead-letter queue is as it was. If it was given up, no attempt was counted as
  -- completed, and one job was counted as moved to dead-letter; a record of the queue's name with
  -- the job's name, its data and the number of its attempts was added to the entries (which are
  -- unchanged if the record's id was there), of which the newest `max_entries` are left.
  pub live-IsSettled :
      (job : Job) (attempts : List Attempt) (s : S) (l : Life S)
      → attempt_of job ≤ attempts_allowed job
      → live zod host registry queue max_entries queue_name default_timeout_ms fails job attempts s
        ≡ some l
      → Settled job s l
  live-IsSettled job [] s l left h = cc
  live-IsSettled job (a ∷ later) s l left h =
      let result =
        process_job host registry queue_name default_timeout_ms job a.signal a.events a.duration in
      elim (Option-cases result) [
        | inl e ↦ cc (rw e at h)
        | inr (r, e) ↦
            continued-IsSettled job a.now s _ r l left
              (process_job-IsAccounted host registry queue_name default_timeout_ms job a.signal
                a.events a.duration r e)
              (process_job-FollowsItself host readable registry queue_name default_timeout_ms job
                a.signal a.events a.duration r e)
              (λ next s' l' more g. live-IsSettled next later s' l' more g) (rw e at h)
      ]
