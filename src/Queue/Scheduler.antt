-- ===== src/Queue/Scheduler.antt =====
-- src/queue/scheduler.ts: the recurring jobs. The schedulers that Redis holds are BullMQ's, an
-- abstract state with its operations; the clock is the host's.
pub mod Laws
pub mod Run
use queue_worker_kit.Prelude.{
  ℕ, suc, ◌-◌, Text, codes, text_eq, ◌&&◌, ◌++◌, List, [], ◌∷◌, Bool, true, false, Option, none,
  some, ◌≡◌, if◌then◌else◌,
}
use queue_worker_kit.Config.Defaults.{
  maintenance, maintenance_scheduler_id, maintenance_cleanup_lookback_ms,
}
use queue_worker_kit.Config.Env.{Env}
use queue_worker_kit.Values.{Completion, normal, throw}
use queue_worker_kit.Json.{Json, str, bool, obj, field, end}
use queue_worker_kit.Jobs.Types.{Zod, JobMeta, JobEnvelope, envelope_json}
use queue_worker_kit.Jobs.Definitions.{cleanup_job}
use queue_worker_kit.Observability.Effects.{Effect, log, info}
use queue_worker_kit.Queue.Registry.{Queue, QueueRegistry, get_or_throw}

-- The clock's time in milliseconds, read twice while a schedule is handled: when its payload is
-- built, and when its envelope is.
pub record Moment : Type 0 where
  pub built : ℕ
  pub enqueued : ℕ

-- `new Date(ms).toISOString()`
abbrev pub ToIso : Type 0
ToIso = ℕ → Text

pub record ScheduleSpec : Type 0 where
  pub id : Text
  pub queue : Text
  pub job_name : Text
  pub pattern : Text
  pub tz : Option Text
  pub build_payload : ToIso → ℕ → Json

-- The repeat options, and the template of the jobs: its name and its data.
pub record Entry : Type 0 where
  pub pattern : Text
  pub tz : Option Text
  pub name : Text
  pub stored : Json

-- BullMQ's `upsertJobScheduler`, `getJobSchedulers` and `removeJobScheduler` of a queue; `entry`
-- is what a queue holds under an id.
pub record Schedulers (S : Type 0) : Type 0 where
  pub upsert : Queue → Text → Entry → S → Completion S
  pub list : Queue → S → Completion (List (Text × Entry))
  pub remove : Queue → Text → S → Completion (Bool × S)
  pub entry : S → Text → Text → Option Entry

-- An upsert replaces what its queue holds under its id, and nothing else.
pub record SchedulersLaws {S : Type 0} (schedulers : Schedulers S) : Type 0 where
  pub entry-upsert :
      (q : Queue) (id : Text) (e : Entry) (s s' : S) (queue j : Text)
      → schedulers.upsert q id e s ≡ normal s'
      → schedulers.entry s' queue j
        ≡ (if text_eq q.name queue && text_eq id j then some e else schedulers.entry s queue j)

-- The clock is past the year 1970, so that the difference is not negative.
unfoldable pub cleanup_window : ToIso → ℕ → Json
cleanup_window to_iso now = obj (
    field (codes "before") (str (to_iso (now - maintenance_cleanup_lookback_ms)))
      (field (codes "dryRun") (bool false) end))

unfoldable pub build_default_schedules : Zod → Env → List ScheduleSpec
unfolding cleanup_job cleanup_window
build_default_schedules zod env =
    record {
      id = maintenance_scheduler_id;
      queue = maintenance;
      job_name = (cleanup_job zod).name;
      pattern = env.maintenance_cleanup_cron;
      tz = none;
      build_payload = cleanup_window;
    }
    ∷ []

unfoldable pub scheduled_envelope : ToIso → ScheduleSpec → Moment → JobEnvelope
scheduled_envelope to_iso spec moment = record {
  payload = spec.build_payload to_iso moment.built;
  meta = record {
    correlation_id = codes "scheduler:" ++ spec.id;
    enqueued_at = to_iso moment.enqueued;
    idempotency_key = none;
  };
}

unfoldable pub entry_of : ToIso → ScheduleSpec → Moment → Entry
unfolding scheduled_envelope
entry_of to_iso spec moment = record {
  pattern = spec.pattern;
  tz = spec.tz;
  name = spec.job_name;
  stored = envelope_json (scheduled_envelope to_iso spec moment);
}

module _ {S : Type 0} (schedulers : Schedulers S) where
  abbrev upserted :
      Completion S
      → S
      → (S → Completion (Unit {0}) × S × List Effect)
      → Completion (Unit {0}) × S × List Effect
  upserted (throw v) s rest = (throw v, s, [])
  upserted (normal s') s rest =
      let (c, t, es) = rest s' in (c, t, log info (codes "job scheduler upserted") ∷ es)

  abbrev with_queue :
      Completion Queue
      → S
      → (Queue → Completion (Unit {0}) × S × List Effect)
      → Completion (Unit {0}) × S × List Effect
  with_queue (throw v) s rest = (throw v, s, [])
  with_queue (normal q) s rest = rest q

  -- The n-th schedule is handled at the n-th moment. What was upserted before a throw stays.
  unfoldable pub upsert_schedules :
      ToIso
      → QueueRegistry
      → List ScheduleSpec
      → (ℕ → Moment)
      → S
      → Completion (Unit {0}) × S × List Effect
  unfolding entry_of
  upsert_schedules to_iso queues [] times s = (normal tt, s, [])
  upsert_schedules to_iso queues (spec ∷ specs) times s =
      with_queue (get_or_throw queues spec.queue) s (λ q.
        upserted (schedulers.upsert q spec.id (entry_of to_iso spec (times 0)) s) s
          (upsert_schedules to_iso queues specs (λ k. times (suc k))))

  abbrev on_queue : {A : Type 0} → Completion Queue → (Queue → Completion A) → Completion A
  on_queue (throw v) f = throw v
  on_queue (normal q) f = f q

  unfoldable pub list_schedules : QueueRegistry → Text → S → Completion (List (Text × Entry))
  list_schedules queues name s = on_queue (get_or_throw queues name) (λ q. schedulers.list q s)

  unfoldable pub remove_schedule : QueueRegistry → Text → Text → S → Completion (Bool × S)
  remove_schedule queues name id s =
      on_queue (get_or_throw queues name) (λ q. schedulers.remove q id s)
