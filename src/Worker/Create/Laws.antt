-- ===== src/Worker/Create/Laws.antt =====
-- The worker's listeners over a whole life (src/worker/create-worker.ts).
use mathlib.Core.Logic.{inl, inr}
use queue_worker_kit.Prelude.{
  ℕ, ◌≤◌, ◌≡◌, Text, text_eq, length, List, [], ◌∷◌, false, Bool-cases, none, some,
}
use queue_worker_kit.Config.Defaults.{dead_letter}
use queue_worker_kit.Values.{Value, Host}
use queue_worker_kit.Jobs.Types.{Zod, ZodLaws, IsValidMeta, JobEnvelope, envelope_json}
use queue_worker_kit.Json.{property, get_field}
use queue_worker_kit.Worker.Processor.{Job}
use queue_worker_kit.Worker.DeadLetter.{DeadLetterQueue}
use queue_worker_kit.Worker.DeadLetter.Laws.{Entries, IsWorking}
use queue_worker_kit.Worker.DeadLetter.Bound.{record_failure-bounded}
use queue_worker_kit.Worker.Create.{
  correlation_id_of, dead_letter_input, is_terminal_failure, WorkerEvent, ready, closing, closed,
  worker_error, stalled, failed, on_event,
}

-- A terminal failure of a job that was stored as an envelope with valid metadata is filed under the correlation id of the envelope.
pub correlation_id_of-envelope :
    (zod : Zod)
    → ZodLaws zod
    → (e : JobEnvelope) → IsValidMeta zod e.meta
    → (job : Job) → job.stored ≡ envelope_json e
    → correlation_id_of zod (some job) ≡ e.meta.correlation_id
unfolding correlation_id_of envelope_json property get_field text_eq
correlation_id_of-envelope zod laws e valid job h = simp (h, laws.meta_accepts e.meta valid)

module _ {S : Type 0} (zod : Zod) (host : Host) (queue : DeadLetterQueue S) (max_entries : ℕ)
    (queue_name : Text) where
  -- The state of the dead-letter queue after the worker's events, each with the clock at the time.
  abbrev pub after_events : List (ℕ × WorkerEvent) → S → S
  after_events [] s = s
  after_events ((now, e) ∷ es) s =
      after_events es (on_event zod host queue max_entries queue_name now e s).0

  module _ (entries : S → Entries) (w : IsWorking queue entries)
      (other : text_eq queue_name dead_letter ≡ false) where
    other_source :
        (job : Job) (error : Value)
        → text_eq (dead_letter_input zod queue_name job error).source_queue dead_letter ≡ false
    unfolding dead_letter_input
    other_source job error = other

    on_event-bounded :
        (now : ℕ) (e : WorkerEvent) (s : S)
        → length (entries s) ≤ max_entries
        → length (entries (on_event zod host queue max_entries queue_name now e s).0) ≤ max_entries
    unfolding on_event
    on_event-bounded now ready s h = h
    on_event-bounded now (worker_error error) s h = h
    on_event-bounded now (stalled id) s h = h
    on_event-bounded now closing s h = h
    on_event-bounded now closed s h = h
    on_event-bounded now (failed none error) s h = h
    on_event-bounded now (failed (some job) error) s h =
        elim (Bool-cases (is_terminal_failure job)) [
          | inl y ↦ rw y (
              record_failure-bounded queue host max_entries entries w now
                (dead_letter_input zod queue_name job error) s (other_source job error))
          | inr n ↦ rw n h
        ]

    -- Through every sequence of a worker's events, on a dead-letter queue that answers, at most
    -- `max_entries` records wait, if no more did before and the worker's queue is another one.
    pub after_events-bounded :
        (es : List (ℕ × WorkerEvent)) (s : S)
        → length (entries s) ≤ max_entries
        → length (entries (after_events es s)) ≤ max_entries
    after_events-bounded [] s h = h
    after_events-bounded ((now, e) ∷ es) s h =
        after_events-bounded es (on_event zod host queue max_entries queue_name now e s).0
          (on_event-bounded now e s h)
