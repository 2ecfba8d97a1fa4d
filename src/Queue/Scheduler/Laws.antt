-- ===== src/Queue/Scheduler/Laws.antt =====
-- Upserting the schedules: every replica's boot leads to the same schedules.
use queue_worker_kit.Prelude.{
  ℕ, suc, Text, codes, ◌++◌, text_eq, text_eq_iff, text_eq_refl, Bool-cases, inl, inr, none, All,
  List, [], ◌∷◌, some, ◌≡◌, ◌≢◌, refl, ◌∙◌, arith,
}
use queue_worker_kit.Values.{normal}
use queue_worker_kit.Observability.Effects.{Effect, log, info}
use queue_worker_kit.Jobs.Types.{envelope_json}
use queue_worker_kit.Queue.Registry.{Queue, QueueRegistry, get}
use queue_worker_kit.Queue.Registry.Laws.{get_or_throw-registered}
use queue_worker_kit.Queue.Scheduler.{
  Moment, ToIso, ScheduleSpec, Entry, entry_of, scheduled_envelope, Schedulers, SchedulersLaws,
  upsert_schedules,
}

abbrev pub later : (ℕ → Moment) → ℕ → Moment
later times k = times (suc k)

-- No two schedules have the same id.
abbrev pub Distinct : List ScheduleSpec → Type 0
Distinct [] = Unit
Distinct (spec ∷ specs) = All (λ t. t.id ≢ spec.id) specs × Distinct specs

abbrev pub Registered : QueueRegistry → ScheduleSpec → Type 0
Registered queues spec = (q : Queue) × (get queues spec.queue ≡ some q)

-- The repeat options and the template that a schedule stands for, with its data built at a moment.
pub record IsBuilt (to_iso : ToIso) (spec : ScheduleSpec) (moment : Moment) (e : Entry)
    : Type 0 where
  pub pattern : e.pattern ≡ spec.pattern
  pub tz : e.tz ≡ spec.tz
  pub name : e.name ≡ spec.job_name
  pub stored :
      e.stored
      ≡ envelope_json (record {
        payload = spec.build_payload to_iso moment.built;
        meta = record {
          correlation_id = codes "scheduler:" ++ spec.id;
          enqueued_at = to_iso moment.enqueued;
          idempotency_key = none;
        };
      })

entry_of-IsBuilt :
    (to_iso : ToIso) (spec : ScheduleSpec) (moment : Moment)
    → IsBuilt to_iso spec moment (entry_of to_iso spec moment)
unfolding entry_of scheduled_envelope
entry_of-IsBuilt to_iso spec moment = record {
  pattern = refl;
  tz = refl;
  name = refl;
  stored = refl;
}

module _ {S : Type 0} (schedulers : Schedulers S) (laws : SchedulersLaws schedulers)
    (to_iso : ToIso) (queues : QueueRegistry) where
  -- Every schedule is held by its queue, under its id, as it was built at its moment.
  abbrev pub Holds : S → List ScheduleSpec → (ℕ → Moment) → Type 0
  Holds s [] times = Unit
  Holds s (spec ∷ specs) times =
      ((q : Queue) × (get queues spec.queue ≡ some q)
        × ((e : Entry) × (schedulers.entry s q.name spec.id ≡ some e)
            × IsBuilt to_iso spec (times 0) e))
      × Holds s specs (later times)

  -- Nothing but what the queues of the schedules hold under their ids differs.
  abbrev pub Agrees : S → S → List ScheduleSpec → Type 0
  Agrees s s' specs =
      (queue id : Text)
      → All (λ t. (q : Queue) → get queues t.queue ≡ some q → t.id ≡ id → q.name ≢ queue) specs
      → schedulers.entry s' queue id ≡ schedulers.entry s queue id

  entry-other :
      (q : Queue) (id : Text) (e : Entry) (s s' : S) (queue j : Text)
      → schedulers.upsert q id e s ≡ normal s'
      → (id ≡ j → q.name ≢ queue)
      → schedulers.entry s' queue j ≡ schedulers.entry s queue j
  entry-other q id e s s' queue j h apart = elim (Bool-cases (text_eq q.name queue)) [
    | inl y ↦ elim (Bool-cases (text_eq id j)) [
      | inl same ↦ absurd (apart ((text_eq_iff id j).0 same) ((text_eq_iff q.name queue).0 y))
      | inr n ↦ ground (arith, laws.entry-upsert q id e s s' queue j h)
    ]
    | inr n ↦ ground (arith, laws.entry-upsert q id e s s' queue j h)
  ]

  entry-same :
      (q : Queue) (id : Text) (e : Entry) (s s' : S)
      → schedulers.upsert q id e s ≡ normal s'
      → schedulers.entry s' q.name id ≡ some e
  entry-same q id e s s' h =
      ground
        (arith, laws.entry-upsert q id e s s' q.name id h, text_eq_refl q.name, text_eq_refl id)

  apart :
      (id queue : Text) (specs : List ScheduleSpec)
      → All (λ t. t.id ≢ id) specs
      → All (λ t. (q : Queue) → get queues t.queue ≡ some q → t.id ≡ id → q.name ≢ queue) specs
  apart id queue [] h = tt
  apart id queue (t ∷ specs) h = ((λ q found same. absurd (h.0 same)), apart id queue specs h.1)

  module _
      (answers : (q : Queue) (id : Text) (e : Entry) (s : S)
        → (s' : S) × (schedulers.upsert q id e s ≡ normal s')) where
    -- Where every queue is registered and Redis answers, upserting schedules with distinct ids
    -- succeeds. Whatever the schedulers were before, every schedule is then held by its queue under
    -- its id: with its pattern and time zone, the name of its job, and as data its payload, built
    -- at this run, under a correlation id that names the schedule. What any queue holds under
    -- another id is as it was, and so is what another queue holds under the same one.
    pub upsert_schedules-Holds :
        (specs : List ScheduleSpec) (times : ℕ → Moment) (s : S)
        → Distinct specs
        → All (Registered queues) specs
        → (s' : S) × (es : List Effect) × (upsert_schedules schedulers to_iso queues specs times s
            ≡ (normal tt, s', es))
          × Holds s' specs times
          × Agrees s s' specs
    unfolding upsert_schedules
    upsert_schedules-Holds [] times s d r = (s, [], refl, tt, λ queue id h. refl)
    upsert_schedules-Holds (spec ∷ specs) times s d r =
        let (q, found) = r.0 in
        let e : Entry = entry_of to_iso spec (times 0) in
        let (s1, step) = answers q spec.id e s in
        let (s', es, run, holds, agrees) = upsert_schedules-Holds specs (later times) s1 d.1 r.1 in
        (
          s',
          log info (codes "job scheduler upserted") ∷ es,
          rw (get_or_throw-registered queues spec.queue q found, step, run) refl,
          (
            (
              q,
              found,
              (
                e,
                agrees q.name spec.id (apart spec.id q.name specs d.0)
                    ∙ entry-same q spec.id e s s1 step,
                entry_of-IsBuilt to_iso spec (times 0),
              ),
            ),
            holds,
          ),
          λ queue id h.
              agrees queue id h.1 ∙ entry-other q spec.id e s s1 queue id step (h.0 q found),
        )
