-- ===== src/Queue/Events.antt =====
-- src/queue/events.ts: the listeners of BullMQ's queue events, which only log, and their closing.
use queue_worker_kit.Prelude.{
  Text, codes, ◌≡◌, refl, ◌++◌, map, List, [], ◌∷◌, Bool, true, false, if◌then◌else◌,
}
use queue_worker_kit.Values.{Value}
use queue_worker_kit.Observability.Effects.{Effect, log, debug, info, warn}

-- One instance of `QueueEvents`: whether its listeners are attached, and whether it is closed.
pub record Instance : Type 0 where
  pub queue : Text
  pub attached : Bool
  pub is_closed : Bool

pub record QueueEvents : Type 0 where
  pub instances : List Instance
  pub closing : Bool

pub data QueueEvent : Type 0 where
  completed failed stalled : Text → QueueEvent
  broken : Value → QueueEvent

abbrev instance_of : Text → Instance
instance_of queue = record { queue = queue; attached = true; is_closed = false }

unfoldable pub create_queue_events_listeners : List Text → QueueEvents
create_queue_events_listeners names = record { instances = map instance_of names; closing = false }

abbrev pub logged : QueueEvent → Effect
logged (completed id) = log debug (codes "queue event: completed")
logged (failed id) = log debug (codes "queue event: failed")
logged (stalled id) = log info (codes "queue event: stalled")
logged (broken e) = log warn (codes "queue events error")

-- An event that an instance emits is logged while its listeners are attached.
unfoldable pub on_queue_event : QueueEvent → Instance → List Effect
on_queue_event event i = if i.attached then logged event ∷ [] else []

abbrev shut : Instance → Instance
shut i = record i { attached = false; is_closed = true }

-- `closing ??= …`: the listeners go first, then the instance is closed.
unfoldable pub close_events : QueueEvents → QueueEvents
close_events s =
    if s.closing then s else record { instances = map shut s.instances; closing = true }

abbrev pub heard : QueueEvent → List Instance → List Effect
heard event [] = []
heard event (i ∷ is) = on_queue_event event i ++ heard event is

heard-shut : (event : QueueEvent) (is : List Instance) → heard event (map shut is) ≡ []
unfolding on_queue_event
heard-shut event [] = refl
heard-shut event (i ∷ is) = heard-shut event is

-- Once the listeners are closed, no event of any queue is logged, and a second call changes nothing.
pub heard-close_events :
    (names : List Text) (event : QueueEvent)
    → let s = close_events (create_queue_events_listeners names) in
      (heard event s.instances ≡ []) × (close_events s ≡ s)
unfolding close_events create_queue_events_listeners
heard-close_events names event = (heard-shut event (map instance_of names), refl)
